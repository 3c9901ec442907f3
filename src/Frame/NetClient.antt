-- ===== src/Frame/NetClient.antt =====
-- Server/Frame/SocketTCP/NetClient.cpp: one connection, the packets sent to it and received from it.
-- Socket, log and locks are left out; the two lists of received packets are kept by what their index
-- says, the one written to and the one read from. What executing a packet does is another part's: the
-- packets are recorded in the order in which they are executed.
pub mod Encode
pub mod Send
pub mod Parse
pub mod Rows
pub mod Receive
pub mod Progress
use mahjong_server.Common.{
  ℕ, zero, suc, ◌+◌, ◌-◌, ◌*◌, ◌^◌, Bool, true, false, not, List, [], ◌∷◌, ◌++◌, Option, none, some,
  leb, ltb, ◌==◌, if◌then◌else◌, length,
}
use mahjong_server.Frame.Bytes.{bytes_at, rest_after}
use mahjong_server.Frame.Stream.{
  StreamBuffer, is_available, clear_input_buffer, get_data, add_data_to_input_buffer,
  remove_data_from_input_buffer,
}
use mahjong_server.Frame.Binary.{Written, read, write, write_buffer}
use mahjong_server.Frame.SerializedData.{SerializedData, read_from_buffer, write_to_buffer}

abbrev pub header_size : ℕ
header_size = 8

abbrev pub client_temp_buffer_size : ℕ
client_temp_buffer_size = 11 * 1024

-- `client_id` is none for INVALID_ID; the other fields are the data to serialize.
pub record Packet : Type 0 where
  pub packet_type : ℕ
  pub client_id : Option ℕ
  pub contents : SerializedData

pub record NetClient : Type 0 where
  pub client_guid : ℕ
  pub is_dead_client : Bool
  pub async_execute : Bool
  pub send_stream : StreamBuffer
  pub recv_stream : StreamBuffer
  pub temp_recv_stream : StreamBuffer
  pub temp_buffer0 : List ℕ
  pub temp_buffer1 : List ℕ
  pub write_list : List Packet
  pub read_list : List Packet
  pub executed : List Packet

abbrev pub is_valid_id : Option ℕ → Bool
is_valid_id none = false
is_valid_id (some id) = true

-- Whether to send, and the client marked as dead where its buffer is full.
unfoldable pub send_packet_check : Packet → NetClient → Bool × NetClient
unfolding is_available
send_packet_check packet c =
    if c.is_dead_client
    then (false, c)
    else if is_valid_id packet.client_id
    then (false, c)
    else if ltb client_temp_buffer_size (header_size + packet.contents.data_size)
    then (false, c)
    else if is_available packet.contents.data_size c.send_stream
    then (true, c)
    else (false, record c { is_dead_client = true })

-- The three writes into the buffer for a packet with its header.
unfoldable pub write_packet : ℕ → ℕ → List ℕ → List ℕ → Written
unfolding write write_buffer
write_packet packet_type packet_size source buffer =
    let head = write 4 buffer client_temp_buffer_size 0 packet_type false in
    let sized = write 4 head.buffer client_temp_buffer_size head.index packet_size false in
    write_buffer sized.buffer client_temp_buffer_size sized.index source

unfoldable pub put_packet : Packet → NetClient → NetClient
unfolding write_to_buffer write_packet add_data_to_input_buffer
put_packet packet c =
    let packet_size = packet.contents.data_size in
    let inner = write_to_buffer c.temp_buffer1 packet_size packet.contents in
    let outer =
      write_packet packet.packet_type packet_size (bytes_at 0 packet_size inner.buffer)
        c.temp_buffer0 in
    record c {
      temp_buffer1 = inner.buffer;
      temp_buffer0 = outer.buffer;
      send_stream =
          add_data_to_input_buffer (bytes_at 0 (header_size + packet_size) outer.buffer) false
            c.send_stream;
    }

unfoldable pub send_packet : Packet → NetClient → NetClient
unfolding send_packet_check put_packet
send_packet packet c =
    let checked = send_packet_check packet c in
    if checked.0 then put_packet packet checked.1 else checked.1

unfoldable pub notify_data_sended : ℕ → NetClient → NetClient
unfolding remove_data_from_input_buffer
notify_data_sended sended_count c = record c {
  send_stream = remove_data_from_input_buffer sended_count c.send_stream;
}

unfoldable pub notify_recv_data : List ℕ → NetClient → NetClient
unfolding add_data_to_input_buffer
notify_recv_data bytes c = record c {
  temp_recv_stream = add_data_to_input_buffer bytes false c.temp_recv_stream;
}

pub data ParseResult : Type 0 where
  success : ParseResult
  error : ParseResult
  not_enough : ParseResult

pub record Parsed : Type 0 where
  pub result : ParseResult
  pub index : ℕ
  pub packet : Option Packet

unfoldable pub execute_all_packet : NetClient → NetClient
execute_all_packet c = record c {
  executed = c.executed ++ c.write_list;
  write_list = c.read_list;
  read_list = [];
}

pub record ParsedAll : Type 0 where
  pub packet_list : List Packet
  pub stream : StreamBuffer
  pub ret : Bool

abbrev pub put_first : Option Packet → ParsedAll → ParsedAll
put_first none r = r
put_first (some packet) r = record r { packet_list = packet ∷ r.packet_list }

abbrev pub put_first_of : Option Packet → Option ParsedAll → Option ParsedAll
put_first_of packet none = none
put_first_of packet (some r) = some (put_first packet r)

-- One round at what was parsed, given the rounds after it for the index that is removed.
abbrev pub parse_next : (ℕ → Option ParsedAll) → StreamBuffer → Parsed → Option ParsedAll
parse_next others s p = elim p.result [
  | success ↦ put_first_of p.packet (others p.index)
  | error ↦ some (record { packet_list = []; stream = s; ret = false })
  | not_enough ↦ some (record { packet_list = []; stream = s; ret = true })
]

abbrev pub execute_if : Bool → NetClient → NetClient
execute_if async_execute c = if async_execute then execute_all_packet c else c

abbrev pub with_parsed : NetClient → Option ParsedAll → NetClient
with_parsed c none = c
with_parsed c (some r) = execute_if c.async_execute (record c {
  recv_stream = r.stream;
  is_dead_client = if r.ret then c.is_dead_client else true;
  write_list = c.write_list ++ r.packet_list;
})

abbrev pub sync_recv : NetClient → NetClient
sync_recv c = record c {
  recv_stream = add_data_to_input_buffer (get_data c.temp_recv_stream) false c.recv_stream;
  temp_recv_stream = clear_input_buffer c.temp_recv_stream;
}

-- The packet factory of each type, by the new packet it creates.
module _ (factory_list : ℕ → Option Packet) where
  -- The part of parsePacket behind the header, at the packet of the factory that the type has. With
  -- no factory the size that is asked for is -1.
  unfoldable pub parse_sized : ℕ → StreamBuffer → ℕ → ℕ → Option Packet → Parsed
  unfolding read_from_buffer
  parse_sized guid s packet_size index none = record {
    result = ParseResult.error;
    index = index;
    packet = none;
  }
  parse_sized guid s packet_size index (some created) =
      let r =
        read_from_buffer (rest_after (s.data_start + index) s.buffer) packet_size
          created.contents in
      if not (packet_size == created.contents.data_size)
      then record { result = ParseResult.error; index = index; packet = none }
      else if ltb s.data_length (index + packet_size)
      then record { result = ParseResult.not_enough; index = index - header_size; packet = none }
      else if r.0
      then record {
        result = ParseResult.success;
        index = index + packet_size;
        packet = some (record created { contents = r.1; client_id = some guid });
      }
      else record { result = ParseResult.error; index = index; packet = none }

  -- The tests of parsePacket, at the type and at the size that was read with the index behind it.
  unfoldable pub parse_headed : ℕ → StreamBuffer → ℕ → ℕ → ℕ × ℕ → Parsed
  unfolding parse_sized
  parse_headed guid s index packet_type sized =
      if ltb s.data_length (index + header_size)
      then record { result = ParseResult.not_enough; index = index; packet = none }
      else if leb (2 ^ 31) sized.0
      then record { result = ParseResult.error; index = sized.1; packet = none }
      else parse_sized guid s sized.0 sized.1 (factory_list packet_type)

  unfoldable pub parse_packet : ℕ → StreamBuffer → ℕ → Parsed
  unfolding read parse_headed
  parse_packet guid s index =
      let memory = rest_after s.data_start s.buffer in
      let size = s.buffer_size - s.data_start in
      let head = read 4 memory size index false in
      parse_headed guid s index head.0 (read 4 memory size head.1 false)

  -- The loop of parseData, none if its rounds do not suffice.
  unfoldable pub parse_loop : ℕ → ℕ → StreamBuffer → Option ParsedAll
  unfolding parse_packet remove_data_from_input_buffer
  parse_loop zero guid s = none
  parse_loop (suc rounds) guid s =
      parse_next (λ index. parse_loop rounds guid (remove_data_from_input_buffer index s)) s
        (parse_packet guid s 0)

  unfoldable pub parse_data : NetClient → NetClient
  unfolding parse_loop
  parse_data c =
      let synced = sync_recv c in
      with_parsed synced
        (parse_loop (suc synced.recv_stream.data_length) c.client_guid synced.recv_stream)
