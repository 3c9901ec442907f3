-- ===== src/Frame/Binary/Arrays.antt =====
-- Writing and reading a number and a row of numbers, in both byte orders.
use mahjong_server.Common.{
  ℕ, suc, ◌+◌, ◌*◌, ◌^◌, ◌≤◌, ◌<◌, ◌≡◌, refl, ap, sym, ◌∙◌, Bool, true, false, List, [], ◌∷◌,
  length, All, arith, ltb-true,
}
use mahjong_server.Frame.Bytes.{copy_to, bytes_at}
use mahjong_server.Frame.Bytes.Laws.{length-copy_to, bytes_at-before}
use mahjong_server.Frame.Binary.{read, Written, write, read_array, write_array}
use mahjong_server.Frame.Binary.RoundTrip.{stored, stored_at, read-stored, write-stored}

-- The numbers stand one behind the other from the index on.
abbrev Stand : Bool → ℕ → ℕ → List ℕ → List ℕ → Type 0
Stand inverse size index [] buffer = Unit
Stand inverse size index (v ∷ values) buffer =
    (bytes_at index size buffer ≡ stored inverse size v)
    × Stand inverse size (index + size) values buffer

record IsArray (inverse : Bool) (size index : ℕ) (values buffer : List ℕ) (w : Written)
    : Type 0 where
  done : w.done ≡ true
  behind : w.index ≡ index + size * length values
  same_length : length w.buffer ≡ length buffer
  untouched : (q n : ℕ) → q + n ≤ index → bytes_at q n w.buffer ≡ bytes_at q n buffer
  stand : Stand inverse size index values w.buffer

product_suc : (size n : ℕ) → size * suc n ≡ size + size * n
product_suc size n = grind arith

write_array_lem :
    (inverse : Bool) (size index buffer_size : ℕ) (values buffer : List ℕ)
    → length buffer ≡ buffer_size
    → index + size * length values ≤ buffer_size
    → IsArray inverse size index values buffer
        (write_array size buffer buffer_size index values inverse)
unfolding write_array
write_array_lem inverse size index buffer_size [] buffer e room = record {
  done = refl;
  behind = omega arith;
  same_length = refl;
  untouched = λ q n h. refl;
  stand = tt;
}
write_array_lem inverse size index buffer_size (v ∷ values) buffer e room =
    let p = product_suc size (length values) in
    let fits : index + size ≤ buffer_size = omega arith in
    let after = copy_to index (stored inverse size v) buffer in
    let same : length after ≡ length buffer = length-copy_to index (stored inverse size v) buffer in
    let others : IsArray inverse size (index + size) values after
        (write_array size after buffer_size (index + size) values inverse) =
      write_array_lem inverse size (index + size) buffer_size values after (same ∙ e)
        (omega arith) in
    rw (write-stored inverse size index v buffer_size buffer fits) (record {
      done = others.done;
      behind = omega (arith, others.behind);
      same_length = others.same_length ∙ same;
      untouched = λ q n h.
          others.untouched q n (omega arith)
          ∙ bytes_at-before index q n (stored inverse size v) buffer h;
      stand = (
        others.untouched index size (omega arith)
            ∙ stored_at inverse size index v buffer (omega arith),
        others.stand,
      );
    })

read_array_lem :
    (inverse : Bool) (size index buffer_size : ℕ) (values buffer : List ℕ)
    → All (λ v. v < 256 ^ size) values
    → index + size * length values ≤ buffer_size
    → Stand inverse size index values buffer
    → read_array size buffer buffer_size index (length values) inverse
      ≡ (values, index + size * length values)
unfolding read_array
read_array_lem inverse size index buffer_size [] buffer small room stand =
    ap (λ i. ([], i)) (omega arith)
read_array_lem inverse size index buffer_size (v ∷ values) buffer (small, others) room
      (here, stand) =
    let p = product_suc size (length values) in
    rw (read-stored inverse size index v buffer_size buffer small (omega arith) here) (
      rw
        (read_array_lem inverse size (index + size) buffer_size values buffer others (omega arith)
          stand)
        (ap (λ i. (v ∷ values, i)) (omega arith)))

-- A row of numbers of `size` bytes each, written into a block of memory that has room for it, is
-- written, in either byte order; reading as many numbers in the same order from the same index
-- gives the row back and ends at the same index, and no byte in front of it has changed.
pub read_array-write_array :
    (inverse : Bool) (size index : ℕ) (values buffer : List ℕ)
    → All (λ v. v < 256 ^ size) values
    → index + size * length values ≤ length buffer
    → ((write_array size buffer (length buffer) index values inverse).done ≡ true)
      × (read_array size
            (write_array size buffer (length buffer) index values inverse).buffer
            (length buffer)
            index
            (length values)
            inverse
          ≡ (values, (write_array size buffer (length buffer) index values inverse).index))
      × ((q n : ℕ)
          → q + n ≤ index
          → bytes_at q n (write_array size buffer (length buffer) index values inverse).buffer
            ≡ bytes_at q n buffer)
read_array-write_array inverse size index values buffer small room =
    let w = write_array_lem inverse size index (length buffer) values buffer refl room in
    (
      w.done,
      read_array_lem inverse size index (length buffer) values
            (write_array size buffer (length buffer) index values inverse).buffer small room w.stand
          ∙ ap (λ i. (values, i)) (sym w.behind),
      w.untouched,
    )

-- With no room for it a number is not written: the index and the memory stay; what is read there is
-- zero, and the index stays too.
pub write-read_full :
    (inverse : Bool) (size index value : ℕ) (buffer : List ℕ)
    → length buffer < index + size
    → (write size buffer (length buffer) index value inverse
        ≡ record { done = false; index = index; buffer = buffer })
      × (read size buffer (length buffer) index inverse ≡ (0, index))
unfolding write read
write-read_full inverse size index value buffer full =
    rw (ltb-true (length buffer) (index + size) full) (refl, refl)
