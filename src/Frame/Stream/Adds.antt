-- ===== src/Frame/Stream/Adds.antt =====
-- Each branch of an addition and a removal against the queue of bytes.
use mahjong_server.Common.{
  ℕ, suc, ◌+◌, ◌≤◌, ◌<◌, ◌≡◌, refl, ap, sym, ◌∙◌, Bool, true, false, ◌&&◌, List, ◌++◌, leb,
  leb-true, leb-false, leb-cases, subst, length, arith, inl, inr,
}
use mahjong_server.Frame.Bytes.{copy_to, bytes_at}
use mahjong_server.Frame.Bytes.Laws.{
  length-copy_to, length-bytes_at, bytes_at-copy_to, copied_behind, rest_after-part,
}
use mahjong_server.Frame.Stream.{
  StreamBuffer, is_available, clear_input_buffer, get_data, move_to_front, append, add_with,
  add_data_to_input_buffer, remove_data_from_input_buffer,
}
use mahjong_server.Frame.Stream.Queue.{ByteQueue, Op, run_queue, IsStream, view, Refines}

IsStream-append :
    (bytes : List ℕ) (s : StreamBuffer)
    → IsStream s
    → length bytes + (s.data_start + s.data_length) ≤ s.buffer_size
    → Refines (append bytes s) (record { capacity = s.buffer_size; bytes = get_data s ++ bytes })
IsStream-append bytes s ok room = (
  record {
    allocated = length-copy_to (s.data_start + s.data_length) bytes s.buffer ∙ ok.allocated;
    inside = omega arith;
  },
  ap (λ l. record { capacity = s.buffer_size; bytes = l })
      (copied_behind s.data_start s.data_length (s.data_start + s.data_length) bytes s.buffer refl
        (omega (arith, ok.allocated))),
)

-- The data moved to the front is the same data, with all the room behind it.
move_to_front-IsStream : (s : StreamBuffer) → IsStream s → IsStream (move_to_front s)
move_to_front-IsStream s ok = record {
  allocated = length-copy_to 0 (get_data s) s.buffer ∙ ok.allocated;
  inside = omega (arith, ok.inside);
}

-- Data copied to the front of a block that has room for it.
pub front_of :
    (s : StreamBuffer) (buffer : List ℕ)
    → s.data_length ≤ length buffer
    → bytes_at 0 s.data_length (copy_to 0 (get_data s) buffer) ≡ get_data s
front_of s buffer room =
    let n = length-bytes_at s.data_start s.data_length s.buffer in
    sym (ap (λ k. bytes_at 0 k (copy_to 0 (get_data s) buffer)) n)
    ∙ bytes_at-copy_to 0 (get_data s) buffer (omega (arith, n))

move_to_front-get_data : (s : StreamBuffer) → IsStream s → get_data (move_to_front s) ≡ get_data s
move_to_front-get_data s ok = front_of s s.buffer (omega (arith, ok.inside, ok.allocated))

-- With room behind the data a call is an append, however many calls are left.
add_with-behind :
    (calls : ℕ) (bytes : List ℕ) (clear_if_full : Bool) (s : StreamBuffer)
    → length bytes + (s.data_start + s.data_length) ≤ s.buffer_size
    → add_with (suc calls) bytes clear_if_full s ≡ append bytes s
unfolding add_with
add_with-behind calls bytes clear_if_full s room = ground arith

add_with-moved :
    (calls : ℕ) (bytes : List ℕ) (clear_if_full : Bool) (s : StreamBuffer)
    → s.buffer_size < length bytes + (s.data_start + s.data_length)
    → length bytes + s.data_length ≤ s.buffer_size
    → add_with (suc calls) bytes clear_if_full s ≡ add_with calls bytes false (move_to_front s)
unfolding add_with is_available
add_with-moved calls bytes clear_if_full s full room = ground arith

add_with-cleared :
    (calls : ℕ) (bytes : List ℕ) (s : StreamBuffer)
    → s.buffer_size < length bytes + s.data_length
    → length bytes ≤ s.buffer_size
    → add_with (suc calls) bytes true s ≡ add_with calls bytes false (clear_input_buffer s)
unfolding add_with is_available
add_with-cleared calls bytes s full room = ground arith

add_with-dropped :
    (calls : ℕ) (bytes : List ℕ) (clear_if_full : Bool) (s : StreamBuffer)
    → s.buffer_size < length bytes + s.data_length
    → clear_if_full && leb (length bytes) s.buffer_size ≡ false
    → add_with (suc calls) bytes clear_if_full s ≡ s
unfolding add_with is_available
add_with-dropped calls bytes clear_if_full s full e = ground arith

pub queue-behind :
    (bytes : List ℕ) (clear_if_full : Bool) (q : ByteQueue)
    → length bytes + length q.bytes ≤ q.capacity
    → run_queue (Op.add bytes clear_if_full) q ≡ record q { bytes = q.bytes ++ bytes }
unfolding run_queue
queue-behind bytes clear_if_full q room = ground arith

queue-cleared :
    (bytes : List ℕ) (q : ByteQueue)
    → q.capacity < length bytes + length q.bytes
    → length bytes ≤ q.capacity
    → run_queue (Op.add bytes true) q ≡ record q { bytes = bytes }
unfolding run_queue
queue-cleared bytes q full room = ground arith

pub queue-dropped :
    (bytes : List ℕ) (clear_if_full : Bool) (q : ByteQueue)
    → q.capacity < length bytes + length q.bytes
    → clear_if_full && leb (length bytes) q.capacity ≡ false
    → run_queue (Op.add bytes clear_if_full) q ≡ q
unfolding run_queue
queue-dropped bytes clear_if_full q full e = ground arith

pub length-get_data : (s : StreamBuffer) → length (get_data s) ≡ s.data_length
length-get_data s = length-bytes_at s.data_start s.data_length s.buffer

-- The branches of an addition, without the calls of itself.
add_behind :
    (calls : ℕ) (bytes : List ℕ) (clear_if_full : Bool) (s : StreamBuffer)
    → IsStream s
    → length bytes + (s.data_start + s.data_length) ≤ s.buffer_size
    → Refines
        (add_with (suc calls) bytes clear_if_full s)
        (record { capacity = s.buffer_size; bytes = get_data s ++ bytes })
add_behind calls bytes clear_if_full s ok room =
    rw (add_with-behind calls bytes clear_if_full s room) (IsStream-append bytes s ok room)

add_moved :
    (bytes : List ℕ) (clear_if_full : Bool) (s : StreamBuffer)
    → IsStream s
    → s.buffer_size < length bytes + (s.data_start + s.data_length)
    → length bytes + s.data_length ≤ s.buffer_size
    → Refines
        (add_with 2 bytes clear_if_full s)
        (record { capacity = s.buffer_size; bytes = get_data s ++ bytes })
add_moved bytes clear_if_full s ok full room =
    rw (add_with-moved 1 bytes clear_if_full s full room) (
      subst
        (λ l.
          Refines (add_with 1 bytes false (move_to_front s))
            (record { capacity = s.buffer_size; bytes = l ++ bytes }))
        (move_to_front-get_data s ok)
        (add_behind 0 bytes false (move_to_front s) (move_to_front-IsStream s ok) (omega arith)))

add_cleared :
    (bytes : List ℕ) (s : StreamBuffer)
    → IsStream s
    → s.buffer_size < length bytes + s.data_length
    → length bytes ≤ s.buffer_size
    → Refines (add_with 2 bytes true s) (record { capacity = s.buffer_size; bytes = bytes })
add_cleared bytes s ok full room = rw (add_with-cleared 1 bytes s full room) (
    add_behind 0 bytes false (clear_input_buffer s)
      (record { allocated = ok.allocated; inside = omega arith }) (omega arith))

add_room :
    (bytes : List ℕ) (clear_if_full : Bool) (s : StreamBuffer)
    → IsStream s
    → length bytes + s.data_length ≤ s.buffer_size
    → Refines
        (add_with 2 bytes clear_if_full s)
        (record { capacity = s.buffer_size; bytes = get_data s ++ bytes })
add_room bytes clear_if_full s ok room =
    elim (leb-cases (length bytes + (s.data_start + s.data_length)) s.buffer_size) [
      | inl behind ↦ add_behind 1 bytes clear_if_full s ok behind
      | inr full ↦ add_moved bytes clear_if_full s ok full room
    ]

add_full :
    (bytes : List ℕ) (clear_if_full : Bool) (s : StreamBuffer)
    → IsStream s
    → s.buffer_size < length bytes + s.data_length
    → Refines (add_with 2 bytes clear_if_full s) (run_queue (Op.add bytes clear_if_full) (view s))
add_full bytes true s ok full =
    let n = length-get_data s in
    elim (leb-cases (length bytes) s.buffer_size) [
      | inl fits ↦
          rw (queue-cleared bytes (view s) (omega (arith, n)) fits)
            (add_cleared bytes s ok full fits)
      | inr large ↦
          let no = leb-false (length bytes) s.buffer_size large in
          rw
            (
              queue-dropped bytes true (view s) (omega (arith, n)) no,
              add_with-dropped 1 bytes true s full no,
            )
            (ok, refl)
    ]
add_full bytes false s ok full =
    rw
      (
        queue-dropped bytes false (view s) (omega (arith, length-get_data s)) refl,
        add_with-dropped 1 bytes false s full refl,
      )
      (ok, refl)

pub add-Refines :
    (bytes : List ℕ) (clear_if_full : Bool) (s : StreamBuffer)
    → IsStream s
    → Refines
        (add_data_to_input_buffer bytes clear_if_full s)
        (run_queue (Op.add bytes clear_if_full) (view s))
unfolding add_data_to_input_buffer
add-Refines bytes clear_if_full s ok =
    let n = length-get_data s in
    elim (leb-cases (length bytes + s.data_length) s.buffer_size) [
      | inl room ↦
          rw (queue-behind bytes clear_if_full (view s) (omega (arith, n)))
            (add_room bytes clear_if_full s ok room)
      | inr full ↦ add_full bytes clear_if_full s ok full
    ]

pub remove-Refines :
    (count : ℕ) (s : StreamBuffer)
    → IsStream s
    → Refines (remove_data_from_input_buffer count s) (run_queue (Op.remove count) (view s))
unfolding remove_data_from_input_buffer run_queue
remove-Refines count s ok = elim (leb-cases count s.data_length) [
  | inl enough ↦
      rw (length-get_data s, leb-true count s.data_length enough)
        (
          record { allocated = ok.allocated; inside = omega (arith, ok.inside) },
          ap (λ l. record { capacity = s.buffer_size; bytes = l })
              (sym (rest_after-part count s.data_start s.data_length s.buffer enough)),
        )
  | inr few ↦ rw (length-get_data s, leb-false count s.data_length few) (ok, refl)
]
