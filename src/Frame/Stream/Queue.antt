-- ===== src/Frame/Stream/Queue.antt =====
-- The specification of a stream buffer: a queue of bytes of bounded size.
use mahjong_server.Common.{ℕ, ◌+◌, ◌≤◌, ◌≡◌, Bool, ◌&&◌, List, [], ◌++◌, leb, if◌then◌else◌, length}
use mahjong_server.Frame.Bytes.{rest_after}
use mahjong_server.Frame.Stream.{StreamBuffer, get_data}

-- The specification: the bytes in their order, and how many there may be.
pub record ByteQueue : Type 0 where
  pub capacity : ℕ
  pub bytes : List ℕ

pub data Op : Type 0 where
  add : List ℕ → Bool → Op
  remove : ℕ → Op
  clear : Op
  resize : ℕ → Op

unfoldable pub run_queue : Op → ByteQueue → ByteQueue
run_queue (Op.add bytes clear_if_full) q =
    if leb (length bytes + length q.bytes) q.capacity
    then record q { bytes = q.bytes ++ bytes }
    else if clear_if_full && leb (length bytes) q.capacity
    then record q { bytes = bytes }
    else q
run_queue (Op.remove count) q =
    if leb count (length q.bytes) then record q { bytes = rest_after count q.bytes } else q
run_queue Op.clear q = record q { bytes = [] }
run_queue (Op.resize size) q = if leb size q.capacity then q else record q { capacity = size }

pub record IsStream (s : StreamBuffer) : Type 0 where
  pub allocated : length s.buffer ≡ s.buffer_size
  pub inside : s.data_start + s.data_length ≤ s.buffer_size

abbrev pub view : StreamBuffer → ByteQueue
view s = record { capacity = s.buffer_size; bytes = get_data s }

-- One operation on a stream and the same one on its view.
abbrev pub Refines : StreamBuffer → ByteQueue → Type 0
Refines s q = IsStream s × (view s ≡ q)
