-- ===== src/Frame/Serializer/RoundTrip.antt =====
-- The strings that were written are the strings that are read.
use mahjong_server.Common.{
  ℕ, zero, suc, ◌+◌, ◌^◌, ◌≤◌, ◌<◌, ◌≡◌, refl, ap, sym, ◌∙◌, true, false, List, [], ◌∷◌, ◌++◌,
  Option, none, some, ltb-false, leb, leb-false, if◌then◌else◌, length, length-append, arith, map,
}
use mahjong_server.Frame.Bytes.{bytes_at}
use mahjong_server.Frame.Bytes.Laws.{length-bytes_at, split_at_row}
use mahjong_server.Frame.Binary.{read, read_buffer}
use mahjong_server.Frame.Binary.RoundTrip.{stored, read-stored}
use mahjong_server.Frame.Serializer.{
  Serializer, writer, reader, check_read, memory_of, read_value, read_bytes_of, length_read,
  read_string, write_string, in_int, defined,
}
use mahjong_server.Frame.Serializer.Writes.{
  content, IsWriter, Writes, write_value_lem, write_bytes_of_lem,
}

-- A string as it stands in memory: its length, and its chars.
abbrev encoded : List ℕ → List ℕ
encoded str = stored false 4 (length str) ++ str

abbrev all_encoded : List (List ℕ) → List ℕ
all_encoded [] = []
all_encoded (str ∷ strs) = encoded str ++ all_encoded strs

append_assoc_bytes : (a b c : List ℕ) → (a ++ b) ++ c ≡ a ++ (b ++ c)
append_assoc_bytes [] b c = refl
append_assoc_bytes (x ∷ a) b c = ap (λ l. x ∷ l) (append_assoc_bytes a b c)

append_nothing : (a : List ℕ) → a ++ [] ≡ a
append_nothing [] = refl
append_nothing (x ∷ a) = ap (λ l. x ∷ l) (append_nothing a)

abbrev at_index : List ℕ → ℕ → ℕ → Serializer
at_index memory size index = record {
  buffer = some memory;
  index = index;
  buffer_size = size;
  write_flag = false;
  overflowed = false;
}

check_read_lem :
    (n index size : ℕ) (memory : List ℕ)
    → index + n ≤ size
    → check_read n (at_index memory size index) ≡ true
unfolding check_read
check_read_lem n index size memory room = rw (ltb-false size (index + n) room) refl

-- The serializer of a read that computed an int below 2 ^ 31.
in_int-defined :
    (memory : List ℕ) (size index n : ℕ)
    → n < 2 ^ 31
    → in_int n (at_index memory size index) ≡ at_index memory size index
in_int-defined memory size index n h =
    ap (λ b. record (at_index memory size index) { overflowed = if b then true else false })
      (leb-false (2 ^ 31) n h)

read_value_lem :
    (n value index size : ℕ) (memory : List ℕ)
    → value < 256 ^ n
    → index + n ≤ size
    → size < 2 ^ 31
    → bytes_at index n memory ≡ stored false n value
    → read_value n (at_index memory size index) ≡ (some value, at_index memory size (index + n))
unfolding read_value
read_value_lem n value index size memory small room short stands =
    let s = at_index memory size index in
    let t = in_int (index + n) s in
    ap
      (λ b.
        if b
        then (
          some (read n memory size index false).0,
          record t { index = (read n memory size index false).1 },
        )
        else (none, t))
      (check_read_lem n index size memory room)
    ∙ ap (λ r. (some r.0, record t { index = r.1 }))
        (read-stored false n index value size memory small room stands)
    ∙ ap (λ u. (some value, record u { index = index + n }))
        (in_int-defined memory size index (index + n) (omega arith))

read_bytes_of_lem :
    (n index size : ℕ) (memory : List ℕ)
    → index + n ≤ size
    → size < 2 ^ 31
    → read_bytes_of n (at_index memory size index)
      ≡ (some (bytes_at index n memory), at_index memory size (index + n))
unfolding read_bytes_of check_read read_buffer
read_bytes_of_lem n index size memory room short = rw (ltb-false size (index + n) room) (
    ap (λ u. (some (bytes_at index n memory), record u { index = index + n }))
      (in_int-defined memory size index (index + n) (omega arith)))

abbrev read_rest : Option ℕ × Serializer → Option (Option (List ℕ) × Serializer)
read_rest r =
    if leb (2 ^ 31) (length_read r.0) then none else defined (read_bytes_of (length_read r.0) r.1)

read_string_lem :
    (str others : List ℕ) (index n size : ℕ) (memory : List ℕ)
    → index + n ≤ size
    → size < 2 ^ 31
    → bytes_at index n memory ≡ encoded str ++ others
    → read_string (at_index memory size index)
      ≡ some (some str, at_index memory size (index + 4 + length str))
unfolding read_string
read_string_lem str others index n size memory room short stands =
    let head = split_at_row (stored false 4 (length str)) (str ++ others) index n memory stands in
    let behind = split_at_row str others (index + 4) (length (str ++ others)) memory head.1 in
    let k = ap length stands in
    let m = length-bytes_at index n memory in
    let l = length-append str others in
    ap read_rest
      (read_value_lem 4 (length str) index size memory (omega arith) (omega arith) short head.0)
    ∙ ap
        (λ b.
          if b
          then none
          else defined (read_bytes_of (length str) (at_index memory size (index + 4))))
        (leb-false (2 ^ 31) (length str) (omega arith))
    ∙ ap defined (read_bytes_of_lem (length str) (index + 4) size memory (omega arith) short)
    ∙ ap (λ s. some (some s, at_index memory size (index + 4 + length str))) behind.0

-- The bytes that strings take, four for each length.
abbrev pub size_of : List (List ℕ) → ℕ
size_of [] = 0
size_of (str ∷ strs) = 4 + length str + size_of strs

zero_plus : (n : ℕ) → 0 + n ≡ n
zero_plus n = omega arith

abbrev pub put_string :
    Option (List ℕ) → Option (List (Option (List ℕ))) → Option (List (Option (List ℕ)))
put_string str none = none
put_string str (some strs) = some (str ∷ strs)

-- A number of strings read one after the other.
abbrev pub read_next :
    (Serializer → Option (List (Option (List ℕ))))
    → Option (Option (List ℕ) × Serializer)
    → Option (List (Option (List ℕ)))
read_next others none = none
read_next others (some (str, s)) = put_string str (others s)

abbrev pub read_strings : ℕ → Serializer → Option (List (Option (List ℕ)))
read_strings zero s = some []
read_strings (suc n) s = read_next (read_strings n) (read_string s)

read_strings_lem :
    (strs : List (List ℕ)) (index n size : ℕ) (memory : List ℕ)
    → index + n ≤ size
    → size < 2 ^ 31
    → bytes_at index n memory ≡ all_encoded strs
    → read_strings (length strs) (at_index memory size index) ≡ some (map some strs)
read_strings_lem [] index n size memory room short stands = refl
read_strings_lem (str ∷ strs) index n size memory room short stands =
    let behind = split_at_row (encoded str) (all_encoded strs) index n memory stands in
    let k = ap length stands in
    let m = length-bytes_at index n memory in
    let l = length-append str (all_encoded strs) in
    let i : index + length (encoded str) ≡ index + 4 + length str = omega arith in
    ap (read_next (read_strings (length strs)))
      (read_string_lem str (all_encoded strs) index n size memory room short stands)
    ∙ ap (put_string (some str)) (
        read_strings_lem strs (index + 4 + length str) (length (all_encoded strs)) size memory
          (omega arith) short
          (ap (λ j. bytes_at j (length (all_encoded strs)) memory) (sym i) ∙ behind.1))

module _ (new_array : ℕ → List ℕ) where
  abbrev pub write_strings : List (List ℕ) → Serializer → Serializer
  write_strings [] s = s
  write_strings (str ∷ strs) s = write_strings strs (write_string new_array str s)

module _ (new_array : ℕ → List ℕ) (length-new_array : (n : ℕ) → length (new_array n) ≡ n) where
  write_string_lem :
      (str : List ℕ) (s : Serializer)
      → IsWriter s
      → Writes (4 + length str) s (write_string new_array str s)
        × (content (write_string new_array str s) ≡ content s ++ encoded str)
  unfolding write_string
  write_string_lem str s ok =
      let a = write_value_lem new_array length-new_array 4 (length str) s ok in
      let b = write_bytes_of_lem new_array length-new_array str _ a.0.is_writer in
      (
        record {
          is_writer = b.0.is_writer;
          index = omega (arith, a.0.index, b.0.index);
          defined = λ h. b.0.defined (omega (arith, a.0.index)) ∙ a.0.defined (omega arith);
        },
        b.1
            ∙ ap (λ l. l ++ str) a.1
            ∙ append_assoc_bytes (content s) (stored false 4 (length str)) str,
      )

  write_strings_lem :
      (strs : List (List ℕ)) (s : Serializer)
      → IsWriter s
      → Writes (size_of strs) s (write_strings new_array strs s)
        × (content (write_strings new_array strs s) ≡ content s ++ all_encoded strs)
  write_strings_lem [] s ok = (
    record { is_writer = ok; index = omega arith; defined = λ h. refl },
    sym (append_nothing (content s)),
  )
  write_strings_lem (str ∷ strs) s ok =
      let a = write_string_lem str s ok in
      let b = write_strings_lem strs (write_string new_array str s) a.0.is_writer in
      (
        record {
          is_writer = b.0.is_writer;
          index = omega (arith, a.0.index, b.0.index);
          defined = λ h. b.0.defined (omega (arith, a.0.index)) ∙ a.0.defined (omega arith);
        },
        b.1
            ∙ ap (λ l. l ++ all_encoded strs) a.1
            ∙ append_assoc_bytes (content s) (encoded str) (all_encoded strs),
      )

  -- Strings whose chars together, with four bytes for each string, are 2 ^ 30 bytes at most, written
  -- one after the other with a new serializer: no int overflows, the data have that size, and another
  -- serializer that reads the memory up to it gives these strings back, in their order, where again
  -- no int overflows. New memory has the size asked for.
  pub read_strings-write_strings :
      (strs : List (List ℕ))
      → size_of strs ≤ 2 ^ 30
      → ((write_strings new_array strs writer).overflowed ≡ false)
        × ((write_strings new_array strs writer).index ≡ size_of strs)
        × (read_strings (length strs) (
              reader
                (memory_of (write_strings new_array strs writer).buffer)
                (write_strings new_array strs writer).index)
            ≡ some (map some strs))
  read_strings-write_strings strs small =
      let w = write_strings new_array strs writer in
      let done =
        write_strings_lem strs writer
          (record { writes = refl; allocated = refl; inside = omega arith }) in
      (
        done.0.defined (omega arith),
        done.0.index ∙ zero_plus (size_of strs),
        read_strings_lem strs 0 w.index w.index (memory_of w.buffer) (omega arith)
            (omega (arith, done.0.index)) done.1,
      )
