-- ===== src/Frame/SerializedData/RoundTrip.antt =====
-- What an object writes, another of the same shape reads.
use mahjong_server.Common.{
  ℕ, suc, ◌+◌, ◌≤◌, ◌<◌, ◌≡◌, refl, ap, ap₂, sym, ◌∙◌, true, false, List, [], ◌∷◌, ◌++◌, length,
  length-append, arith, ltb-true, ltb-false, leb-cases, inl, inr, set,
}
use mahjong_server.Frame.Bytes.{copy_to, bytes_at}
use mahjong_server.Frame.Bytes.Laws.{bytes_at-copy_to, split_at_row}
use mahjong_server.Frame.Binary.{read_buffer, write_buffer}
use mahjong_server.Frame.SerializedData.{
  SerializedData, read_parameters, read_from_buffer, write_parameters, write_to_buffer, total_size,
}

abbrev pub all_bytes : List (List ℕ) → List ℕ
all_bytes [] = []
all_bytes (p ∷ ps) = p ++ all_bytes ps

pub length-all_bytes : (ps : List (List ℕ)) → length (all_bytes ps) ≡ total_size ps
length-all_bytes [] = refl
length-all_bytes (p ∷ ps) = omega (arith, length-append p (all_bytes ps), length-all_bytes ps)

-- Two objects with parameters of the same sizes.
abbrev pub SameShape : List (List ℕ) → List (List ℕ) → Type 0
SameShape [] [] = Unit
SameShape [] (q ∷ qs) = ⊥
SameShape (p ∷ ps) [] = ⊥
SameShape (p ∷ ps) (q ∷ qs) = (length p ≡ length q) × SameShape ps qs

copy_rows :
    (row others : List ℕ) (p : ℕ) (buffer : List ℕ)
    → copy_to (p + length row) others (copy_to p row buffer) ≡ copy_to p (row ++ others) buffer
copy_rows [] others p buffer = ap (λ i. copy_to i others buffer) (omega arith)
copy_rows (b ∷ row) others p buffer =
    ap (λ i. copy_to i others (copy_to (suc p) row (set buffer p b))) {x = p + suc (length row)}
      {y = suc p + length row} (omega arith)
    ∙ copy_rows row others (suc p) (set buffer p b)

pub write_parameters_lem :
    (ps : List (List ℕ)) (buffer : List ℕ) (buffer_size offset : ℕ)
    → offset + total_size ps ≤ buffer_size
    → write_parameters buffer buffer_size offset ps ≡ record {
      done = true;
      index = offset + total_size ps;
      buffer = copy_to offset (all_bytes ps) buffer;
    }
unfolding write_parameters write_buffer
write_parameters_lem [] buffer buffer_size offset room =
    ap (λ i. record { done = true; index = i; buffer = buffer }) (omega arith)
write_parameters_lem (p ∷ ps) buffer buffer_size offset room =
    rw (ltb-false buffer_size (offset + length p) (omega arith)) (
      write_parameters_lem ps (copy_to offset p buffer) buffer_size (offset + length p)
        (omega arith)
      ∙ ap₂ (λ i m. record { done = true; index = i; buffer = m }) (omega arith)
          (copy_rows p (all_bytes ps) offset buffer))

pub read_parameters_lem :
    (ps qs : List (List ℕ)) (buffer : List ℕ) (buffer_size offset : ℕ)
    → SameShape ps qs
    → offset + total_size ps ≤ buffer_size
    → bytes_at offset (total_size ps) buffer ≡ all_bytes ps
    → read_parameters buffer buffer_size offset qs ≡ (true, ps)
unfolding read_parameters read_buffer
read_parameters_lem [] [] buffer buffer_size offset same room e = refl
read_parameters_lem [] (q ∷ qs) buffer buffer_size offset same room e = absurd same
read_parameters_lem (p ∷ ps) [] buffer buffer_size offset same room e = absurd same
read_parameters_lem (p ∷ ps) (q ∷ qs) buffer buffer_size offset (n, same) room e =
    let parts = split_at_row p (all_bytes ps) offset (length p + total_size ps) buffer e in
    rw
      (
        sym n,
        ltb-false buffer_size (offset + length p) (omega arith),
        read_parameters_lem ps qs buffer buffer_size (offset + length p) same (omega arith)
            (ap (λ k. bytes_at (offset + length p) k buffer) (sym (length-all_bytes ps)) ∙ parts.1),
        parts.0,
      )
      refl

too_small-write :
    (ps : List (List ℕ)) (buffer : List ℕ) (buffer_size offset : ℕ)
    → buffer_size < offset + total_size ps
    → offset ≤ buffer_size
    → (write_parameters buffer buffer_size offset ps).done ≡ false
unfolding write_parameters write_buffer
too_small-write [] buffer buffer_size offset full start = absurd (omega arith)
too_small-write (p ∷ ps) buffer buffer_size offset full start =
    elim (leb-cases (offset + length p) buffer_size) [
      | inl fits ↦ rw (ltb-false buffer_size (offset + length p) fits) (
          too_small-write ps (copy_to offset p buffer) buffer_size (offset + length p) (omega arith)
            fits)
      | inr large ↦ rw (ltb-true buffer_size (offset + length p) large) refl
    ]

too_small-read :
    (ps : List (List ℕ)) (buffer : List ℕ) (buffer_size offset : ℕ)
    → buffer_size < offset + total_size ps
    → offset ≤ buffer_size
    → (read_parameters buffer buffer_size offset ps).0 ≡ false
unfolding read_parameters read_buffer
too_small-read [] buffer buffer_size offset full start = absurd (omega arith)
too_small-read (p ∷ ps) buffer buffer_size offset full start =
    elim (leb-cases (offset + length p) buffer_size) [
      | inl fits ↦
          rw (ltb-false buffer_size (offset + length p) fits)
            (too_small-read ps buffer buffer_size (offset + length p) (omega arith) fits)
      | inr large ↦ rw (ltb-true buffer_size (offset + length p) large) refl
    ]

-- An object written into a block of memory that has room for all of its parameters is written, and
-- another object whose parameters have the same sizes reads exactly the first one's parameters from
-- there.
pub read_from_buffer-write_to_buffer :
    (d e : SerializedData) (buffer : List ℕ)
    → SameShape d.data_parameter_list e.data_parameter_list
    → total_size d.data_parameter_list ≤ length buffer
    → ((write_to_buffer buffer (length buffer) d).done ≡ true)
      × (read_from_buffer (write_to_buffer buffer (length buffer) d).buffer (length buffer) e
          ≡ (true, record e { data_parameter_list = d.data_parameter_list }))
unfolding write_to_buffer read_from_buffer
read_from_buffer-write_to_buffer d e buffer same room =
    let ps = d.data_parameter_list in
    let n = length-all_bytes ps in
    rw (write_parameters_lem ps buffer (length buffer) 0 (omega arith)) (
      refl,
      ap (λ r. (r.0, record e { data_parameter_list = r.1 }))
          (read_parameters_lem ps e.data_parameter_list (copy_to 0 (all_bytes ps) buffer)
            (length buffer) 0 same (omega arith)
            (ap (λ k. bytes_at 0 k (copy_to 0 (all_bytes ps) buffer)) (sym n)
              ∙ bytes_at-copy_to 0 (all_bytes ps) buffer (omega (arith, n)))),
    )

-- A block of memory with less room than an object's parameters take: both the writing of the
-- object and the reading of it say so.
pub too_small_lem :
    (d : SerializedData) (buffer : List ℕ) (buffer_size : ℕ)
    → buffer_size < total_size d.data_parameter_list
    → ((write_to_buffer buffer buffer_size d).done ≡ false)
      × ((read_from_buffer buffer buffer_size d).0 ≡ false)
unfolding write_to_buffer read_from_buffer
too_small_lem d buffer buffer_size full = (
  too_small-write d.data_parameter_list buffer buffer_size 0 (omega arith) (omega arith),
  too_small-read d.data_parameter_list buffer buffer_size 0 (omega arith) (omega arith),
)
