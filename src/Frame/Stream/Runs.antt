-- ===== src/Frame/Stream/Runs.antt =====
-- Any sequence of operations on a stream buffer against the queue of bytes.
use mahjong_server.Common.{
  ℕ, zero, suc, ◌≡◌, refl, ap, ◌∙◌, List, [], ◌∷◌, leb-true, leb-false, leb-cases, subst, length,
  arith, inl, inr,
}
use mahjong_server.Frame.Bytes.Laws.{length-copy_to}
use mahjong_server.Frame.Stream.{
  StreamBuffer, clear_input_buffer, get_data, add_data_to_input_buffer,
  remove_data_from_input_buffer, resize_buffer, create_stream,
}
use mahjong_server.Frame.Stream.Queue.{ByteQueue, Op, run_queue, IsStream, view, Refines}
use mahjong_server.Frame.Stream.Adds.{add-Refines, remove-Refines, front_of}

abbrev pub queue_all : List Op → ByteQueue → ByteQueue
queue_all [] q = q
queue_all (op ∷ ops) q = queue_all ops (run_queue op q)

module _ (new_array : ℕ → List ℕ) where
  unfoldable pub run_stream : Op → StreamBuffer → StreamBuffer
  unfolding add_data_to_input_buffer remove_data_from_input_buffer resize_buffer
  run_stream (Op.add bytes clear_if_full) s = add_data_to_input_buffer bytes clear_if_full s
  run_stream (Op.remove count) s = remove_data_from_input_buffer count s
  run_stream Op.clear s = clear_input_buffer s
  run_stream (Op.resize size) s = resize_buffer new_array size s

  abbrev pub run_all : List Op → StreamBuffer → StreamBuffer
  run_all [] s = s
  run_all (op ∷ ops) s = run_all ops (run_stream op s)

module _ (new_array : ℕ → List ℕ) (new_array_length : (n : ℕ) → length (new_array n) ≡ n) where
  resize-Refines :
      (size : ℕ) (s : StreamBuffer)
      → IsStream s
      → Refines (resize_buffer new_array size s) (run_queue (Op.resize size) (view s))
  unfolding resize_buffer run_queue
  resize-Refines size s ok = elim (leb-cases size s.buffer_size) [
    | inl large ↦ rw (leb-true size s.buffer_size large) (ok, refl)
    | inr small ↦ rw (leb-false size s.buffer_size small) (
      record {
        allocated = length-copy_to 0 (get_data s) (new_array size) ∙ new_array_length size;
        inside = omega (arith, ok.inside);
      },
      ap (λ l. record { capacity = size; bytes = l })
          (front_of s (new_array size) (omega (arith, ok.inside, new_array_length size))),
    )
  ]

  run-Refines :
      (op : Op) (s : StreamBuffer)
      → IsStream s
      → Refines (run_stream new_array op s) (run_queue op (view s))
  unfolding run_stream run_queue
  run-Refines (Op.add bytes clear_if_full) s ok = add-Refines bytes clear_if_full s ok
  run-Refines (Op.remove count) s ok = remove-Refines count s ok
  run-Refines Op.clear s ok = (record { allocated = ok.allocated; inside = omega arith }, refl)
  run-Refines (Op.resize size) s ok = resize-Refines size s ok

  create-Refines :
      (size : ℕ) → Refines (create_stream new_array size) (record { capacity = size; bytes = [] })
  unfolding create_stream resize_buffer
  create-Refines zero = (record { allocated = refl; inside = omega arith }, refl)
  create-Refines (suc n) =
      rw (leb-false (suc n) 0 (omega arith))
        (record { allocated = new_array_length (suc n); inside = omega arith }, refl)

  run_all-Refines :
      (ops : List Op) (s : StreamBuffer) (q : ByteQueue)
      → Refines s q
      → Refines (run_all new_array ops s) (queue_all ops q)
  run_all-Refines [] s q refined = refined
  run_all-Refines (op ∷ ops) s q (ok, e) =
      run_all-Refines ops (run_stream new_array op s) (run_queue op q)
        (subst (λ r. Refines (run_stream new_array op s) (run_queue op r)) e (run-Refines op s ok))

  -- From a new stream buffer on, however its operations follow each other, the data lies inside its
  -- block of memory, and it is what a queue of bytes of that capacity holds: an addition goes behind
  -- what is there if it fits with it (the data is then moved to the front where needed), replaces it
  -- if that is asked for and it fits alone, and else changes nothing; a removal takes the first
  -- bytes if there are so many; a larger size keeps the data. New memory has the size asked for.
  pub stream_refines :
      (size : ℕ) (ops : List Op)
      → IsStream (run_all new_array ops (create_stream new_array size))
        × (view (run_all new_array ops (create_stream new_array size))
            ≡ queue_all ops (record { capacity = size; bytes = [] }))
  stream_refines size ops =
      run_all-Refines ops (create_stream new_array size) (record { capacity = size; bytes = [] })
        (create-Refines size)
