-- ===== src/Frame/Binary.antt =====
-- Server/Frame/Utility/BinaryUtility.h and .cpp: numbers as bytes, written to and read from memory.
-- A number of `size` bytes is below 256 ^ size, its lowest byte first in memory; a negative one is
-- its bit pattern. Sizes and indices are not negative.
pub mod Loops
pub mod RoundTrip
pub mod Arrays
use mahjong_server.Common.{
  ℕ, zero, suc, ◌+◌, ◌-◌, ◌*◌, ◌/◌, ◌%◌, Bool, true, false, List, [], ◌∷◌, ltb, if◌then◌else◌,
  length, get_or, set, replicate,
}
use mahjong_server.Frame.Bytes.{copy_to, bytes_at}

-- A value as it stands in memory, and the value of what stands there.
abbrev pub to_bytes : ℕ → ℕ → List ℕ
to_bytes zero value = []
to_bytes (suc size) value = value % 256 ∷ to_bytes size (value / 256)

abbrev pub of_bytes : List ℕ → ℕ
of_bytes [] = 0
of_bytes (b ∷ bytes) = b + 256 * of_bytes bytes

unfoldable pub byte_offset : Bool → ℕ → ℕ → ℕ
byte_offset inverse size i = if inverse then size - 1 - i else i

-- The loop of `read`, with the rounds left first.
unfoldable pub read_bytes : Bool → ℕ → List ℕ → ℕ → ℕ → ℕ → List ℕ → List ℕ
unfolding byte_offset
read_bytes inverse size buffer zero i index ptr = ptr
read_bytes inverse size buffer (suc left) i index ptr =
    read_bytes inverse size buffer left (suc i) (suc index)
      (set ptr (byte_offset inverse size i) (get_or buffer index 0))

-- What is read, and the index behind it. The value starts as zero here: each byte of it is written.
unfoldable pub read : ℕ → List ℕ → ℕ → ℕ → Bool → ℕ × ℕ
unfolding read_bytes
read value_size buffer buffer_size index inverse =
    if ltb buffer_size (index + value_size) then (0, index) else (
      of_bytes (read_bytes inverse value_size buffer value_size 0 index (replicate value_size 0)),
      index + value_size,
    )

unfoldable pub write_bytes : Bool → ℕ → List ℕ → ℕ → ℕ → ℕ → List ℕ → List ℕ
unfolding byte_offset
write_bytes inverse size ptr zero i index buffer = buffer
write_bytes inverse size ptr (suc left) i index buffer =
    write_bytes inverse size ptr left (suc i) (suc index)
      (set buffer index (get_or ptr (byte_offset inverse size i) 0))

-- Whether it was written, the index behind it, and the memory.
pub record Written : Type 0 where
  pub done : Bool
  pub index : ℕ
  pub buffer : List ℕ

unfoldable pub write : ℕ → List ℕ → ℕ → ℕ → ℕ → Bool → Written
unfolding write_bytes
write write_size buffer buffer_size index value inverse =
    if ltb buffer_size (index + write_size)
    then record { done = false; index = index; buffer = buffer }
    else record {
      done = true;
      index = index + write_size;
      buffer = write_bytes inverse write_size (to_bytes write_size value) write_size 0 index buffer;
    }

unfoldable pub read_array : ℕ → List ℕ → ℕ → ℕ → ℕ → Bool → List ℕ × ℕ
unfolding read
read_array value_size buffer buffer_size index zero inverse = ([], index)
read_array value_size buffer buffer_size index (suc array_length) inverse =
    let value = read value_size buffer buffer_size index inverse in
    let others = read_array value_size buffer buffer_size value.1 array_length inverse in
    (value.0 ∷ others.0, others.1)

unfoldable pub write_array : ℕ → List ℕ → ℕ → ℕ → List ℕ → Bool → Written
unfolding write
write_array write_size buffer buffer_size index [] inverse = record {
  done = true;
  index = index;
  buffer = buffer;
}
write_array write_size buffer buffer_size index (value ∷ values) inverse =
    let first = write write_size buffer buffer_size index value inverse in
    let others = write_array write_size first.buffer buffer_size first.index values inverse in
    if first.done then others else first

-- Whether it was read, the index behind it, and what is copied to the destination.
unfoldable pub read_buffer : List ℕ → ℕ → ℕ → ℕ → Bool × ℕ × List ℕ
read_buffer buffer buffer_size index read_size =
    if ltb buffer_size (index + read_size)
    then (false, index, [])
    else (true, index + read_size, bytes_at index read_size buffer)

unfoldable pub write_buffer : List ℕ → ℕ → ℕ → List ℕ → Written
write_buffer buffer buffer_size dest_offset source =
    if ltb buffer_size (dest_offset + length source)
    then record { done = false; index = dest_offset; buffer = buffer }
    else record {
      done = true;
      index = dest_offset + length source;
      buffer = copy_to dest_offset source buffer;
    }
