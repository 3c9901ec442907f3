-- ===== src/Frame/Serializer.antt =====
-- Server/Frame/Serialize/txSerializer: numbers, blocks and strings written one behind the other into
-- memory that grows, and read again. A buffer not allocated is none. Indices and sizes are ints of 32
-- bits: `overflowed` is set where a sum or product of them leaves the range, and what is computed
-- after that is not what the program does. Lengths are not negative; a string's length that was read
-- as a negative number is undefined behaviour too, the result none.
pub mod Writes
pub mod RoundTrip
use mahjong_server.Common.{
  ℕ, zero, suc, ◌+◌, ◌-◌, ◌*◌, ◌^◌, Bool, true, false, not, List, [], ◌∷◌, Option, none, some, ltb,
  leb, if◌then◌else◌, length,
}
use mahjong_server.Frame.Bytes.{copy_to, bytes_at}
use mahjong_server.Frame.Binary.{Written, read, write, read_buffer, write_buffer}

pub record Serializer : Type 0 where
  pub buffer : Option (List ℕ)
  pub index : ℕ
  pub buffer_size : ℕ
  pub write_flag : Bool
  pub overflowed : Bool

-- The two constructors: to write, and to read a block of memory.
abbrev pub writer : Serializer
writer = record { buffer = none; index = 0; buffer_size = 0; write_flag = true; overflowed = false }

abbrev pub reader : List ℕ → ℕ → Serializer
reader memory size = record {
  buffer = some memory;
  index = 0;
  buffer_size = size;
  write_flag = false;
  overflowed = false;
}

-- The sum or product `n` was computed as an int, which is undefined behaviour from 2 ^ 31 on.
abbrev pub in_int : ℕ → Serializer → Serializer
in_int n s = record s { overflowed = if leb (2 ^ 31) n then true else s.overflowed }

abbrev pub with_written : Serializer → Written → Serializer
with_written s w = record s { buffer = some w.buffer; index = w.index }

abbrev pub larger : ℕ → ℕ → ℕ
larger max_size doubled = if ltb doubled max_size then max_size else doubled

-- checkRead; a serializer without memory cannot be read.
abbrev pub in_memory : Option (List ℕ) → Bool
in_memory none = false
in_memory (some memory) = true

unfoldable pub check_read : ℕ → Serializer → Bool
check_read read_len s =
    if s.write_flag
    then false
    else if not (in_memory s.buffer)
    then false
    else if ltb s.buffer_size (s.index + read_len)
    then false
    else true

abbrev pub memory_of : Option (List ℕ) → List ℕ
memory_of none = []
memory_of (some memory) = memory

-- What was read, none if the variable stays as it was; and the serializer.
unfoldable pub read_value : ℕ → Serializer → Option ℕ × Serializer
unfolding check_read read
read_value size s =
    let r = read size (memory_of s.buffer) s.buffer_size s.index false in
    let t = in_int (s.index + size) s in
    if check_read size s then (some r.0, record t { index = r.1 }) else (none, t)

abbrev pub read_block : Serializer → Bool × ℕ × List ℕ → Option (List ℕ) × Serializer
read_block s r = if r.0 then (some r.2, record s { index = r.1 }) else (none, s)

unfoldable pub read_bytes_of : ℕ → Serializer → Option (List ℕ) × Serializer
unfolding check_read read_buffer
read_bytes_of read_len s =
    let t = in_int (s.index + read_len) s in
    let r = read_block t (read_buffer (memory_of s.buffer) s.buffer_size s.index read_len) in
    if check_read read_len s then r else (none, t)

-- The length is zero where it could not be read.
abbrev pub length_read : Option ℕ → ℕ
length_read none = 0
length_read (some n) = n

-- Nothing is said of a result behind an overflow.
abbrev pub defined : Option (List ℕ) × Serializer → Option (Option (List ℕ) × Serializer)
defined r = if r.1.overflowed then none else some r

unfoldable pub read_string : Serializer → Option (Option (List ℕ) × Serializer)
unfolding read_value read_bytes_of
read_string s =
    let r = read_value 4 s in
    if leb (2 ^ 31) (length_read r.0) then none else defined (read_bytes_of (length_read r.0) r.1)

module _ (new_array : ℕ → List ℕ) where
  abbrev pub create_buffer : ℕ → Serializer → Serializer
  create_buffer size s = record s { buffer = some (new_array size); buffer_size = size }

  abbrev pub resize_memory : ℕ → List ℕ → Serializer → Serializer
  resize_memory max_size memory s =
      let new_size = larger max_size (s.buffer_size * 2) in
      record (in_int (s.buffer_size * 2) s) {
        buffer = some (copy_to 0 (bytes_at 0 s.buffer_size memory) (new_array new_size));
        buffer_size = new_size;
      }

  abbrev pub make_room : ℕ → Option (List ℕ) → Serializer → Serializer
  make_room write_len none s = create_buffer write_len s
  make_room write_len (some memory) s =
      let t = in_int (write_len + s.index) s in
      if ltb s.buffer_size (write_len + s.index)
      then resize_memory (write_len + s.index) memory t
      else t

  unfoldable pub write_check : ℕ → Serializer → Bool × Serializer
  write_check write_len s =
      if not s.write_flag then (false, s) else (true, make_room write_len s.buffer s)

  unfoldable pub write_value : ℕ → ℕ → Serializer → Serializer
  unfolding write_check write
  write_value size value s =
      let checked = write_check size s in
      let t = checked.1 in
      if checked.0
      then with_written t (write size (memory_of t.buffer) t.buffer_size t.index value false)
      else s

  unfoldable pub write_bytes_of : List ℕ → Serializer → Serializer
  unfolding write_check write_buffer
  write_bytes_of bytes s =
      let checked = write_check (length bytes) s in
      let t = checked.1 in
      if checked.0
      then with_written t (write_buffer (memory_of t.buffer) t.buffer_size t.index bytes)
      else s

  unfoldable pub write_string : List ℕ → Serializer → Serializer
  unfolding write_value write_bytes_of
  write_string str s = write_bytes_of str (write_value 4 (length str) s)
