-- ===== src/Frame/NetClient/Rows.antt =====
-- Packets one behind the other in a stream, and what executing them leaves as it was.
use mahjong_server.Common.{
  ℕ, ◌≤◌, ◌≡◌, refl, ap, sym, ◌∙◌, Bool, true, false, List, [], ◌∷◌, ◌++◌, length, length-append,
  arith, leb-true,
}
use mahjong_server.Frame.Bytes.{rest_after}
use mahjong_server.Frame.Stream.{StreamBuffer, get_data, remove_data_from_input_buffer}
use mahjong_server.Frame.Stream.Queue.{ByteQueue, Op, run_queue, IsStream, view}
use mahjong_server.Frame.Stream.Adds.{remove-Refines}
use mahjong_server.Frame.NetClient.{Packet, NetClient, execute_if, execute_all_packet}
use mahjong_server.Frame.NetClient.Encode.{encode}

abbrev pub encode_all : List Packet → List ℕ
encode_all [] = []
encode_all (p ∷ ps) = encode p ++ encode_all ps

rest_after-append : (row others : List ℕ) → rest_after (length row) (row ++ others) ≡ others
rest_after-append [] others = refl
rest_after-append (b ∷ row) others = rest_after-append row others

pub append_assoc : (a b c : List ℕ) → (a ++ b) ++ c ≡ a ++ (b ++ c)
append_assoc [] b c = refl
append_assoc (x ∷ a) b c = ap (λ l. x ∷ l) (append_assoc a b c)

queue_takes :
    (count : ℕ) (q : ByteQueue)
    → count ≤ length q.bytes
    → run_queue (Op.remove count) q ≡ record q { bytes = rest_after count q.bytes }
unfolding run_queue
queue_takes count q h = rw (leb-true count (length q.bytes) h) refl

-- Taking off what stands in front.
pub remove_front :
    (row others : List ℕ) (count : ℕ) (s : StreamBuffer)
    → IsStream s
    → get_data s ≡ row ++ others
    → length row ≡ count
    → IsStream (remove_data_from_input_buffer count s)
      × (get_data (remove_data_from_input_buffer count s) ≡ others)
remove_front row others count s ok e n =
    let r = remove-Refines count s ok in
    let m = length-append row others in
    (
      r.0,
      ap (λ q. q.bytes) (r.1 ∙ queue_takes count (view s) (omega (arith, ap length e, m)))
          ∙ ap (rest_after count) e
          ∙ ap (λ k. rest_after k (row ++ others)) (sym n)
          ∙ rest_after-append row others,
    )

-- What the bytes received and still to be parsed are.
abbrev pub received : NetClient → List ℕ
received c = get_data c.recv_stream ++ get_data c.temp_recv_stream

-- The packets taken in so far, in their order: the executed ones, then those that wait for it.
abbrev pub history : NetClient → List Packet
history c = c.executed ++ c.write_list

pub append_packets_assoc : (a b c : List Packet) → (a ++ b) ++ c ≡ a ++ (b ++ c)
append_packets_assoc [] b c = refl
append_packets_assoc (x ∷ a) b c = ap (λ l. x ∷ l) (append_packets_assoc a b c)

pub append_none : {A : Type 0} (l : List A) → l ++ [] ≡ l
append_none [] = refl
append_none (x ∷ l) = ap (λ k. x ∷ k) (append_none l)

-- Executing now or later changes nothing of what was taken in, of the bytes or of the client's life.
pub record Same (c d : NetClient) : Type 0 where
  pub taken : history d ≡ history c
  pub bytes : received d ≡ received c
  pub alive : d.is_dead_client ≡ c.is_dead_client
  pub emptied : d.read_list ≡ []

execute_all_packet-Same : (c : NetClient) → c.read_list ≡ [] → Same c (execute_all_packet c)
unfolding execute_all_packet
execute_all_packet-Same c e = record {
  taken = ap (λ l. (c.executed ++ c.write_list) ++ l) e ∙ append_none (c.executed ++ c.write_list);
  bytes = refl;
  alive = refl;
  emptied = refl;
}

pub execute_if-Same : (b : Bool) (c : NetClient) → c.read_list ≡ [] → Same c (execute_if b c)
execute_if-Same true c e = execute_all_packet-Same c e
execute_if-Same false c e = record { taken = refl; bytes = refl; alive = refl; emptied = e }
