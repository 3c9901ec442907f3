-- ===== src/Frame/NetClient/Send.antt =====
-- The bytes that sending a packet puts behind what waits to be sent.
use mahjong_server.Common.{
  ℕ, ◌+◌, ◌≤◌, ◌<◌, ◌≡◌, refl, ap, sym, ◌∙◌, Bool, true, false, List, ◌++◌, none, length, arith,
  ltb, ltb-true, ltb-false, leb-cases, inl, inr, leb, leb-true, leb-false, if◌then◌else◌,
}
use mahjong_server.Frame.Bytes.{copy_to, bytes_at}
use mahjong_server.Frame.Bytes.Laws.{length-bytes_at, bytes_at-copy_to}
use mahjong_server.Frame.Stream.{is_available, get_data}
use mahjong_server.Frame.Binary.RoundTrip.{stored}
use mahjong_server.Frame.SerializedData.{write_to_buffer}
use mahjong_server.Frame.SerializedData.RoundTrip.{
  all_bytes, length-all_bytes, write_parameters_lem,
}
use mahjong_server.Frame.NetClient.{
  header_size, client_temp_buffer_size, is_valid_id, Packet, NetClient, send_packet_check,
  write_packet, put_packet, send_packet,
}
use mahjong_server.Frame.NetClient.Encode.{
  encode, IsPacket, add_data-room, add_data-full, write_packet_lem, IsClient,
}

-- The parameters as they stand in the buffer for them.
inner_lem :
    (packet : Packet) (buffer : List ℕ)
    → IsPacket packet
    → length buffer ≡ client_temp_buffer_size
    → bytes_at 0 packet.contents.data_size
        (write_to_buffer buffer packet.contents.data_size packet.contents).buffer
      ≡ all_bytes packet.contents.data_parameter_list
unfolding write_to_buffer
inner_lem packet buffer is_packet e =
    let ps = packet.contents.data_parameter_list in
    let n = length-all_bytes ps in
    let size : packet.contents.data_size ≡ length (all_bytes ps) = is_packet.sized ∙ sym n in
    ap (λ w. bytes_at 0 packet.contents.data_size w.buffer)
      (write_parameters_lem ps buffer packet.contents.data_size 0 (omega (arith, is_packet.sized)))
    ∙ ap (λ k. bytes_at 0 k (copy_to 0 (all_bytes ps) buffer)) size
    ∙ bytes_at-copy_to 0 (all_bytes ps) buffer (omega (arith, is_packet.fits))

abbrev inner_of : Packet → NetClient → List ℕ
inner_of packet c =
    bytes_at 0 packet.contents.data_size
      (write_to_buffer c.temp_buffer1 packet.contents.data_size packet.contents).buffer

abbrev outer_of : Packet → NetClient → List ℕ
outer_of packet c =
    bytes_at 0 (header_size + packet.contents.data_size)
      (write_packet packet.packet_type packet.contents.data_size (inner_of packet c)
        c.temp_buffer0).buffer

outer_lem :
    (packet : Packet) (c : NetClient)
    → IsPacket packet
    → IsClient c
    → outer_of packet c ≡ encode packet
outer_lem packet c is_packet ok =
    let size = packet.contents.data_size in
    write_packet_lem packet.packet_type size (inner_of packet c) c.temp_buffer0
      (length-bytes_at 0 size (write_to_buffer c.temp_buffer1 size packet.contents).buffer)
      is_packet.fits ok.outer
    ∙ ap (λ l. stored false 4 packet.packet_type ++ (stored false 4 size ++ l))
        (inner_lem packet c.temp_buffer1 is_packet ok.inner)

-- A packet put into the client's buffers goes encoded behind the data that waits, if it has room.
put_packet_lem :
    (packet : Packet) (c : NetClient)
    → IsPacket packet
    → IsClient c
    → header_size + packet.contents.data_size + c.send_stream.data_length
      ≤ c.send_stream.buffer_size
    → get_data (put_packet packet c).send_stream ≡ get_data c.send_stream ++ encode packet
unfolding put_packet
put_packet_lem packet c is_packet ok room =
    let n =
      length-bytes_at 0 (header_size + packet.contents.data_size)
        (write_packet packet.packet_type packet.contents.data_size (inner_of packet c)
          c.temp_buffer0).buffer in
    (add_data-room (outer_of packet c) c.send_stream ok.send (omega arith)).1
    ∙ ap (λ l. get_data c.send_stream ++ l) (outer_lem packet c is_packet ok)

put_packet-full :
    (packet : Packet) (c : NetClient)
    → IsClient c
    → c.send_stream.buffer_size
      < header_size + packet.contents.data_size + c.send_stream.data_length
    → get_data (put_packet packet c).send_stream ≡ get_data c.send_stream
unfolding put_packet
put_packet-full packet c ok full =
    let n =
      length-bytes_at 0 (header_size + packet.contents.data_size)
        (write_packet packet.packet_type packet.contents.data_size (inner_of packet c)
          c.temp_buffer0).buffer in
    add_data-full (outer_of packet c) c.send_stream ok.send (omega arith)

put_packet-alive :
    (packet : Packet) (c : NetClient) → (put_packet packet c).is_dead_client ≡ c.is_dead_client
unfolding put_packet
put_packet-alive packet c = refl

abbrev send_if : Packet → Bool × NetClient → NetClient
send_if packet checked = if checked.0 then put_packet packet checked.1 else checked.1

-- With nothing against it but the room, the check asks for the room of the parameters.
check_room :
    (packet : Packet) (c : NetClient)
    → IsPacket packet
    → c.is_dead_client ≡ false
    → packet.client_id ≡ none
    → send_packet_check packet c ≡ (
        if leb (packet.contents.data_size + c.send_stream.data_length) c.send_stream.buffer_size
        then (true, c)
        else (false, record c { is_dead_client = true }))
unfolding send_packet_check is_available
check_room packet c is_packet alive unmarked =
    let size = packet.contents.data_size in
    let room =
      if leb (size + c.send_stream.data_length) c.send_stream.buffer_size
      then (true, c)
      else (false, record c { is_dead_client = true }) in
    let fits = if ltb client_temp_buffer_size (header_size + size) then (false, c) else room in
    ap (λ b. if b then (false, c) else if is_valid_id packet.client_id then (false, c) else fits)
      alive
    ∙ ap (λ id. if is_valid_id id then (false, c) else fits) unmarked
    ∙ ap (λ b. if b then (false, c) else room)
        (ltb-false client_temp_buffer_size (header_size + size) is_packet.fits)

send_room :
    (packet : Packet) (c : NetClient)
    → IsPacket packet
    → c.is_dead_client ≡ false
    → packet.client_id ≡ none
    → packet.contents.data_size + c.send_stream.data_length ≤ c.send_stream.buffer_size
    → send_packet packet c ≡ put_packet packet c
unfolding send_packet
send_room packet c is_packet alive unmarked room = ap (send_if packet) (
    check_room packet c is_packet alive unmarked
    ∙ ap (λ b. if b then (true, c) else (false, record c { is_dead_client = true }))
        (leb-true (packet.contents.data_size + c.send_stream.data_length) c.send_stream.buffer_size
          room))

send_dead :
    (packet : Packet) (c : NetClient)
    → IsPacket packet
    → c.is_dead_client ≡ false
    → packet.client_id ≡ none
    → c.send_stream.buffer_size < packet.contents.data_size + c.send_stream.data_length
    → send_packet packet c ≡ record c { is_dead_client = true }
unfolding send_packet
send_dead packet c is_packet alive unmarked full = ap (send_if packet) (
    check_room packet c is_packet alive unmarked
    ∙ ap (λ b. if b then (true, c) else (false, record c { is_dead_client = true }))
        (leb-false (packet.contents.data_size + c.send_stream.data_length) c.send_stream.buffer_size
          full))

-- A live client's packet that is not marked with a client, and whose size is its parameters' and
-- fits with the header into the buffer for one packet. If there is room for both behind the data that
-- waits to be sent, the bytes to send are those that waited and then the packet's type, its size and
-- its parameters, and else those that waited. The client is marked as dead just if there is not even
-- room for the parameters: with room for these and not for the header the packet is lost silently.
pub send_packet_lem :
    (packet : Packet) (c : NetClient)
    → IsPacket packet
    → IsClient c
    → c.is_dead_client ≡ false
    → packet.client_id ≡ none
    → (get_data (send_packet packet c).send_stream ≡ (
        if leb
          (header_size + packet.contents.data_size + c.send_stream.data_length)
          c.send_stream.buffer_size
        then get_data c.send_stream ++ encode packet
        else get_data c.send_stream))
      × ((send_packet packet c).is_dead_client
          ≡ ltb c.send_stream.buffer_size (packet.contents.data_size + c.send_stream.data_length))
send_packet_lem packet c is_packet ok alive unmarked =
    let size = packet.contents.data_size + c.send_stream.data_length in
    let whole = header_size + packet.contents.data_size + c.send_stream.data_length in
    let room = c.send_stream.buffer_size in
    elim (leb-cases whole room) [
      | inl fits ↦
          rw
            (
              send_room packet c is_packet alive unmarked (omega arith),
              leb-true whole room fits,
              ltb-false room size (omega arith),
            )
            (put_packet_lem packet c is_packet ok fits, put_packet-alive packet c ∙ alive)
      | inr full ↦ elim (leb-cases size room) [
        | inl some_room ↦
            rw
              (
                send_room packet c is_packet alive unmarked some_room,
                leb-false whole room full,
                ltb-false room size some_room,
              )
              (put_packet-full packet c ok full, put_packet-alive packet c ∙ alive)
        | inr none_left ↦
            rw
              (
                send_dead packet c is_packet alive unmarked none_left,
                leb-false whole room full,
                ltb-true room size none_left,
              )
              (refl, refl)
      ]
    ]
