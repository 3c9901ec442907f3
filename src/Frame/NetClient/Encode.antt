-- ===== src/Frame/NetClient/Encode.antt =====
-- A packet as a row of bytes, and a header with its contents put into memory.
use mahjong_server.Common.{
  ℕ, ◌+◌, ◌≤◌, ◌<◌, ◌≡◌, refl, ap, sym, ◌∙◌, true, false, List, ◌++◌, length, arith, ltb-false,
}
use mahjong_server.Frame.Bytes.{copy_to, bytes_at}
use mahjong_server.Frame.Bytes.Laws.{length-copy_to, bytes_at-copy_to, copied_behind}
use mahjong_server.Frame.Stream.{StreamBuffer, get_data, add_data_to_input_buffer}
use mahjong_server.Frame.Stream.Queue.{IsStream, view}
use mahjong_server.Frame.Stream.Adds.{add-Refines, queue-behind, queue-dropped, length-get_data}
use mahjong_server.Frame.Binary.{Written, write, write_buffer, to_bytes}
use mahjong_server.Frame.Binary.Loops.{length-in_order}
use mahjong_server.Frame.Binary.RoundTrip.{stored, write-stored}
use mahjong_server.Frame.SerializedData.{total_size}
use mahjong_server.Frame.SerializedData.RoundTrip.{all_bytes}
use mahjong_server.Frame.NetClient.{
  header_size, client_temp_buffer_size, Packet, NetClient, write_packet,
}

-- A packet on the wire: its type, its size and its parameters.
abbrev pub encode : Packet → List ℕ
encode packet =
    stored false 4 packet.packet_type
    ++ (stored false 4 packet.contents.data_size ++ all_bytes packet.contents.data_parameter_list)

-- The size of a packet is that of its parameters, and with its header it fits into the buffer.
pub record IsPacket (packet : Packet) : Type 0 where
  pub sized : packet.contents.data_size ≡ total_size packet.contents.data_parameter_list
  pub fits : header_size + packet.contents.data_size ≤ client_temp_buffer_size

pub length-stored : (size value : ℕ) → length (stored false size value) ≡ size
length-stored size value = length-in_order false size (to_bytes size value) size 0

-- An addition that has room goes behind the data.
pub add_data-room :
    (bytes : List ℕ) (s : StreamBuffer)
    → IsStream s
    → length bytes + s.data_length ≤ s.buffer_size
    → IsStream (add_data_to_input_buffer bytes false s)
      × (get_data (add_data_to_input_buffer bytes false s) ≡ get_data s ++ bytes)
add_data-room bytes s ok room =
    let r = add-Refines bytes false s ok in
    (
      r.0,
      ap (λ q. q.bytes)
          (r.1 ∙ queue-behind bytes false (view s) (omega (arith, length-get_data s))),
    )

-- Two numbers and a row of bytes copied one behind the other.
three_copies :
    (a b : ℕ) (source buffer : List ℕ)
    → header_size + length source ≤ length buffer
    → bytes_at 0
        (header_size + length source)
        (copy_to 8 source (copy_to 4 (stored false 4 b) (copy_to 0 (stored false 4 a) buffer)))
      ≡ stored false 4 a ++ (stored false 4 b ++ source)
three_copies a b source buffer room =
    let first = copy_to 0 (stored false 4 a) buffer in
    let second = copy_to 4 (stored false 4 b) first in
    let n : length first ≡ length buffer = length-copy_to 0 (stored false 4 a) buffer in
    let m : length second ≡ length first = length-copy_to 4 (stored false 4 b) first in
    copied_behind 0 8 8 source second refl (omega arith)
    ∙ ap (λ l. l ++ source)
        (copied_behind 0 4 4 (stored false 4 b) first refl (omega arith)
          ∙ ap (λ l. l ++ stored false 4 b)
              (bytes_at-copy_to 0 (stored false 4 a) buffer (omega arith)))

-- An addition that has no room changes nothing.
pub add_data-full :
    (bytes : List ℕ) (s : StreamBuffer)
    → IsStream s
    → s.buffer_size < length bytes + s.data_length
    → get_data (add_data_to_input_buffer bytes false s) ≡ get_data s
add_data-full bytes s ok full =
    ap (λ q. q.bytes)
      ((add-Refines bytes false s ok).1
        ∙ queue-dropped bytes false (view s) (omega (arith, length-get_data s)) refl)

write_buffer-fits :
    (offset buffer_size : ℕ) (source buffer : List ℕ)
    → offset + length source ≤ buffer_size
    → write_buffer buffer buffer_size offset source ≡ record {
      done = true;
      index = offset + length source;
      buffer = copy_to offset source buffer;
    }
unfolding write_buffer
write_buffer-fits offset buffer_size source buffer room =
    rw (ltb-false buffer_size (offset + length source) room) refl

-- What follows the first of the three writes.
abbrev write_sized : ℕ → List ℕ → Written → Written
write_sized packet_size source w =
    let sized = write 4 w.buffer client_temp_buffer_size w.index packet_size false in
    write_buffer sized.buffer client_temp_buffer_size sized.index source

pub write_packet_lem :
    (packet_type packet_size : ℕ) (source buffer : List ℕ)
    → length source ≡ packet_size
    → header_size + packet_size ≤ client_temp_buffer_size
    → length buffer ≡ client_temp_buffer_size
    → bytes_at 0
        (header_size + packet_size)
        (write_packet packet_type packet_size source buffer).buffer
      ≡ stored false 4 packet_type ++ (stored false 4 packet_size ++ source)
unfolding write_packet
write_packet_lem packet_type packet_size source buffer n fits e =
    let first = copy_to 0 (stored false 4 packet_type) buffer in
    let second = copy_to 4 (stored false 4 packet_size) first in
    let done : write_packet packet_type packet_size source buffer
        ≡ record { done = true; index = 8 + length source; buffer = copy_to 8 source second } =
      ap (λ (w : Written). write_sized packet_size source w)
        (write-stored false 4 0 packet_type client_temp_buffer_size buffer (omega arith))
      ∙ ap (λ (w : Written). write_buffer w.buffer client_temp_buffer_size w.index source)
          (write-stored false 4 4 packet_size client_temp_buffer_size first (omega arith))
      ∙ write_buffer-fits 8 client_temp_buffer_size source second (omega arith) in
    ap (λ w. bytes_at 0 (header_size + packet_size) w.buffer) done
    ∙ ap (λ k. bytes_at 0 (header_size + k) (copy_to 8 source second)) (sym n)
    ∙ three_copies packet_type packet_size source buffer (omega arith)

pub record IsClient (c : NetClient) : Type 0 where
  pub send : IsStream c.send_stream
  pub outer : length c.temp_buffer0 ≡ client_temp_buffer_size
  pub inner : length c.temp_buffer1 ≡ client_temp_buffer_size
