-- ===== src/Frame/Stream.antt =====
-- Server/Frame/Common/StreamBuffer.cpp: received or waiting bytes, in one block of memory.
-- The bytes that are there stand at `data_start` and behind. Sizes and counts are not negative. A
-- buffer not allocated is an empty list. The log lines are left out.
pub mod Queue
pub mod Adds
pub mod Runs
use mahjong_server.Common.{
  ℕ, zero, suc, ◌+◌, ◌-◌, Bool, true, false, ◌&&◌, List, [], leb, if◌then◌else◌, length,
}
use mahjong_server.Frame.Bytes.{copy_to, bytes_at}

pub record StreamBuffer : Type 0 where
  pub buffer : List ℕ
  pub buffer_size : ℕ
  pub data_start : ℕ
  pub data_length : ℕ

unfoldable pub is_available : ℕ → StreamBuffer → Bool
is_available count s = leb (count + s.data_length) s.buffer_size

abbrev pub clear_input_buffer : StreamBuffer → StreamBuffer
clear_input_buffer s = record s { data_length = 0; data_start = 0 }

-- getData, up to the end of the data.
abbrev pub get_data : StreamBuffer → List ℕ
get_data s = bytes_at s.data_start s.data_length s.buffer

-- memmove(mBuffer, mBuffer + mDataStart, mDataLength)
abbrev pub move_to_front : StreamBuffer → StreamBuffer
move_to_front s = record s { buffer = copy_to 0 (get_data s) s.buffer; data_start = 0 }

abbrev pub append : List ℕ → StreamBuffer → StreamBuffer
append bytes s = record s {
  buffer = copy_to (s.data_start + s.data_length) bytes s.buffer;
  data_length = s.data_length + length bytes;
}

-- The calls of itself that addDataToInputBuffer makes are counted by the first argument. They come
-- without clearIfFull.
unfoldable pub add_with : ℕ → List ℕ → Bool → StreamBuffer → StreamBuffer
unfolding is_available
add_with zero bytes clear_if_full s = s
add_with (suc calls) bytes clear_if_full s =
    let moved = add_with calls bytes false (move_to_front s) in
    let cleared = add_with calls bytes false (clear_input_buffer s) in
    if leb (length bytes + (s.data_start + s.data_length)) s.buffer_size
    then append bytes s
    else if is_available (length bytes) s
    then moved
    else if clear_if_full && leb (length bytes) s.buffer_size
    then cleared
    else s

unfoldable pub add_data_to_input_buffer : List ℕ → Bool → StreamBuffer → StreamBuffer
unfolding add_with
add_data_to_input_buffer bytes clear_if_full s = add_with 2 bytes clear_if_full s

unfoldable pub remove_data_from_input_buffer : ℕ → StreamBuffer → StreamBuffer
remove_data_from_input_buffer count s =
    if leb count s.data_length
    then record s { data_start = s.data_start + count; data_length = s.data_length - count }
    else s

-- `new_array` is what new memory holds.
module _ (new_array : ℕ → List ℕ) where
  unfoldable pub resize_buffer : ℕ → StreamBuffer → StreamBuffer
  resize_buffer size s = if leb size s.buffer_size then s else record s {
    buffer = copy_to 0 (get_data s) (new_array size);
    buffer_size = size;
    data_start = 0;
  }

  unfoldable pub create_stream : ℕ → StreamBuffer
  unfolding resize_buffer
  create_stream size = clear_input_buffer (
      resize_buffer size (record { buffer = []; buffer_size = 0; data_start = 0; data_length = 0 }))
