-- ===== src/Frame/Binary/RoundTrip.antt =====
-- What was written into memory is what is read from it.
use mahjong_server.Common.{
  ℕ, ◌+◌, ◌^◌, ◌≤◌, ◌<◌, ◌≡◌, ap, sym, ◌∙◌, Bool, true, List, length, length-replicate, get_or,
  replicate, arith, ltb-false,
}
use mahjong_server.Frame.Bytes.{copy_to, bytes_at}
use mahjong_server.Frame.Bytes.Laws.{bytes_at-copy_to}
use mahjong_server.Frame.Binary.{to_bytes, of_bytes, byte_offset, read_bytes, read, write}
use mahjong_server.Frame.Binary.Loops.{
  same_bytes, length-to_bytes, of_bytes-to_bytes, get_or-bytes_at, byte_offset-lt,
  byte_offset-twice, in_order, length-in_order, get_or-in_order, write_bytes_lem, length-read_bytes,
  read_bytes_lem,
}

-- A number as it stands in memory after it was written.
abbrev pub stored : Bool → ℕ → ℕ → List ℕ
stored inverse size value = in_order inverse size (to_bytes size value) size 0

read_in_order :
    (inverse : Bool) (size index : ℕ) (l buffer : List ℕ)
    → length l ≡ size
    → bytes_at index size buffer ≡ in_order inverse size l size 0
    → read_bytes inverse size buffer size 0 index (replicate size 0) ≡ l
read_in_order inverse size index l buffer e stands =
    let zeros = length-replicate size 0 in
    let n = length-read_bytes inverse size buffer size 0 index (replicate size 0) in
    same_bytes (read_bytes inverse size buffer size 0 index (replicate size 0)) l
      (n ∙ zeros ∙ sym e)
      λ k h.
        let small : k < size = omega (arith, n, zeros) in
        let j = byte_offset-lt inverse size k small in
        let back : byte_offset inverse size (0 + byte_offset inverse size k) ≡ k =
          ap (byte_offset inverse size) {x = 0 + byte_offset inverse size k} (omega arith)
          ∙ byte_offset-twice inverse size k small in
        ap (λ i. get_or (read_bytes inverse size buffer size 0 index (replicate size 0)) i 0)
          (sym back)
        ∙ read_bytes_lem inverse size buffer size 0 index (byte_offset inverse size k)
            (replicate size 0) (omega arith) zeros j
        ∙ sym (get_or-bytes_at index size (byte_offset inverse size k) buffer j)
        ∙ ap (λ m. get_or m (byte_offset inverse size k) 0) stands
        ∙ get_or-in_order inverse size l size 0 (byte_offset inverse size k) j
        ∙ ap (λ i. get_or l i 0) back

pub read-stored :
    (inverse : Bool) (size index value buffer_size : ℕ) (buffer : List ℕ)
    → value < 256 ^ size
    → index + size ≤ buffer_size
    → bytes_at index size buffer ≡ stored inverse size value
    → read size buffer buffer_size index inverse ≡ (value, index + size)
unfolding read
read-stored inverse size index value buffer_size buffer small room stands =
    rw (ltb-false buffer_size (index + size) room) (
      ap (λ v. (v, index + size))
        (ap of_bytes (
            read_in_order inverse size index (to_bytes size value) buffer
              (length-to_bytes size value) stands)
          ∙ of_bytes-to_bytes size value small))

pub write-stored :
    (inverse : Bool) (size index value buffer_size : ℕ) (buffer : List ℕ)
    → index + size ≤ buffer_size
    → write size buffer buffer_size index value inverse ≡ record {
      done = true;
      index = index + size;
      buffer = copy_to index (stored inverse size value) buffer;
    }
unfolding write
write-stored inverse size index value buffer_size buffer room =
    rw (ltb-false buffer_size (index + size) room) (
      ap (λ l. record { done = true; index = index + size; buffer = l })
        (write_bytes_lem inverse size (to_bytes size value) size 0 index buffer))

pub stored_at :
    (inverse : Bool) (size index value : ℕ) (buffer : List ℕ)
    → index + size ≤ length buffer
    → bytes_at index size (copy_to index (stored inverse size value) buffer)
      ≡ stored inverse size value
stored_at inverse size index value buffer room =
    let n = length-in_order inverse size (to_bytes size value) size 0 in
    ap (λ k. bytes_at index k (copy_to index (stored inverse size value) buffer)) (sym n)
    ∙ bytes_at-copy_to index (stored inverse size value) buffer (omega (arith, n))
