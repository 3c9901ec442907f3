-- ===== src/Tests/Frames.antt =====
-- A stream buffer, memory and a client at concrete inputs.
use mahjong_server.Common.{
  ℕ, suc, ◌+◌, ◌≤◌, ◌==◌, if◌then◌else◌, ◌≡◌, refl, true, false, List, [], ◌∷◌, ◌++◌, Option, none,
  some, length, replicate, length-replicate, map, arith,
}
use mahjong_server.Frame.Bytes.{bytes_at}
use mahjong_server.Frame.Stream.{StreamBuffer, get_data, create_stream}
use mahjong_server.Frame.Stream.Queue.{Op, run_queue, IsStream, view}
use mahjong_server.Frame.Stream.Runs.{run_all, queue_all, stream_refines}
use mahjong_server.Frame.Binary.{write_array, read_array}
use mahjong_server.Frame.Binary.Arrays.{read_array-write_array}
use mahjong_server.Frame.Serializer.{writer, reader, memory_of}
use mahjong_server.Frame.Serializer.RoundTrip.{
  read_strings, write_strings, read_strings-write_strings,
}
use mahjong_server.Frame.Crc.{crc16}
use mahjong_server.Frame.Crc.Table.{crc_by_bits, crc16_lem}
use mahjong_server.Frame.SerializedData.{SerializedData, write_to_buffer, read_from_buffer}
use mahjong_server.Frame.SerializedData.RoundTrip.{read_from_buffer-write_to_buffer}
use mahjong_server.Frame.NetClient.{
  Packet, NetClient, client_temp_buffer_size, send_packet, parse_packet, parse_loop, parse_data,
  ParsedAll,
}
use mahjong_server.Frame.NetClient.Send.{send_packet_lem}
use mahjong_server.Frame.NetClient.Encode.{encode, IsPacket, IsClient}
use mahjong_server.Frame.NetClient.Parse.{IsKnown, marked, Partial, Wrong}
use mahjong_server.Frame.NetClient.Receive.{Known, parse_data-encode_all, parse_data-Wrong}
use mahjong_server.Frame.NetClient.Rows.{received, history}
use mahjong_server.Frame.NetClient.Progress.{Inside, parse_loop-ends}
use mahjong_server.Frame.Binary.RoundTrip.{stored}

abbrev zeroed : ℕ → List ℕ
zeroed n = replicate n 0

length-zeroed : (n : ℕ) → length (zeroed n) ≡ n
length-zeroed n = length-replicate n 0

-- Filled, half emptied, filled again over the end, and overfilled.
abbrev some_ops : List Op
some_ops =
    Op.add (1 ∷ 2 ∷ 3 ∷ []) false
    ∷ Op.remove 2
    ∷ Op.add (4 ∷ 5 ∷ 6 ∷ []) false
    ∷ Op.add (7 ∷ []) false
    ∷ []

stream_refines_example :
    IsStream (run_all zeroed some_ops (create_stream zeroed 4))
    × (view (run_all zeroed some_ops (create_stream zeroed 4))
        ≡ queue_all some_ops (record { capacity = 4; bytes = [] }))
stream_refines_example = stream_refines zeroed length-zeroed 4 some_ops

some_ops_left :
    queue_all some_ops (record { capacity = 4; bytes = [] })
    ≡ record { capacity = 4; bytes = 3 ∷ 4 ∷ 5 ∷ 6 ∷ [] }
unfolding run_queue
some_ops_left = refl

abbrev two_values : List ℕ
two_values = 258 ∷ 65535 ∷ []

read_array-write_array_example :
    ((write_array 2 (zeroed 5) (length (zeroed 5)) 1 two_values true).done ≡ true)
    × (read_array 2
          (write_array 2 (zeroed 5) (length (zeroed 5)) 1 two_values true).buffer
          (length (zeroed 5))
          1
          (length two_values)
          true
        ≡ (two_values, (write_array 2 (zeroed 5) (length (zeroed 5)) 1 two_values true).index))
    × ((q n : ℕ)
        → q + n ≤ 1
        → bytes_at q n (write_array 2 (zeroed 5) (length (zeroed 5)) 1 two_values true).buffer
          ≡ bytes_at q n (zeroed 5))
read_array-write_array_example =
    read_array-write_array true 2 1 two_values (zeroed 5) (omega arith, (omega arith, tt))
      (omega arith)

abbrev filled : SerializedData
filled = record { data_parameter_list = (7 ∷ 0 ∷ []) ∷ (9 ∷ []) ∷ []; data_size = 3 }

abbrev empty : SerializedData
empty = record { data_parameter_list = (0 ∷ 0 ∷ []) ∷ (0 ∷ []) ∷ []; data_size = 3 }

read_from_buffer-write_to_buffer_example :
    ((write_to_buffer (zeroed 3) (length (zeroed 3)) filled).done ≡ true)
    × (read_from_buffer
          (write_to_buffer (zeroed 3) (length (zeroed 3)) filled).buffer
          (length (zeroed 3))
          empty
        ≡ (true, record empty { data_parameter_list = filled.data_parameter_list }))
read_from_buffer-write_to_buffer_example =
    read_from_buffer-write_to_buffer filled empty (zeroed 3) (refl, (refl, tt)) (omega arith)

-- A packet of type 5, what its factory creates, and what is registered.
abbrev sent : Packet
sent = record { packet_type = 5; client_id = none; contents = filled }

abbrev created : Packet
created = record { packet_type = 5; client_id = none; contents = empty }

abbrev factories : ℕ → Option Packet
factories n = if n == 5 then some created else none

abbrev stream_of : ℕ → List ℕ → StreamBuffer
stream_of size bytes = record {
  buffer = bytes ++ zeroed size;
  buffer_size = length bytes + size;
  data_start = 0;
  data_length = length bytes;
}

abbrev client : List ℕ → ℕ → NetClient
client bytes room = record {
  client_guid = 3;
  is_dead_client = false;
  async_execute = false;
  send_stream = stream_of room [];
  recv_stream = stream_of room [];
  temp_recv_stream = stream_of 0 bytes;
  temp_buffer0 = zeroed client_temp_buffer_size;
  temp_buffer1 = zeroed client_temp_buffer_size;
  write_list = [];
  read_list = [];
  executed = [];
}

sent-IsPacket : IsPacket sent
sent-IsPacket = record { sized = refl; fits = omega arith }

client-IsClient : (room : ℕ) → IsClient (client [] room)
client-IsClient room = record {
  send = record { allocated = omega (arith, length-zeroed room); inside = omega arith };
  outer = length-zeroed client_temp_buffer_size;
  inner = length-zeroed client_temp_buffer_size;
}

-- Room for the packet and its header, eleven bytes, and for nothing more.
send_packet_example :
    (get_data (send_packet sent (client [] 11)).send_stream
      ≡ get_data (client [] 11).send_stream ++ encode sent)
    × ((send_packet sent (client [] 11)).is_dead_client ≡ false)
send_packet_example =
    send_packet_lem sent (client [] 11) sent-IsPacket (client-IsClient 11) refl refl

sent-IsKnown : IsKnown factories sent created
sent-IsKnown = record {
  found = refl;
  typed = refl;
  same_size = refl;
  sized = refl;
  same_shape = (refl, (refl, tt));
  small_type = omega arith;
  small_size = omega arith;
}

sent-Known : Known factories (sent ∷ [])
sent-Known = ((created, sent-IsKnown), tt)

empty_stream : IsStream (stream_of 100 [])
empty_stream = record { allocated = refl; inside = omega arith }

-- One packet and the beginning of another.
abbrev partly : NetClient
partly = client (encode sent ++ (1 ∷ 2 ∷ [])) 100

parse_data-encode_all_example :
    (history (parse_data factories partly) ≡ history partly ++ map (marked 3) (sent ∷ []))
    × (received (parse_data factories partly) ≡ 1 ∷ 2 ∷ [])
    × ((parse_data factories partly).is_dead_client ≡ partly.is_dead_client)
    × ((parse_data factories partly).read_list ≡ [])
parse_data-encode_all_example =
    parse_data-encode_all factories partly (sent ∷ []) (1 ∷ 2 ∷ []) sent-Known
      (Partial.no_header (omega arith)) empty_stream (omega arith) refl refl

-- One packet and the header of a type that has no factory.
abbrev wrong : NetClient
wrong = client (encode sent ++ (stored false 4 6 ++ (stored false 4 0 ++ []))) 100

parse_data-Wrong_example :
    (history (parse_data factories wrong) ≡ history wrong ++ map (marked 3) (sent ∷ []))
    × ((parse_data factories wrong).is_dead_client ≡ true)
parse_data-Wrong_example =
    parse_data-Wrong factories wrong (sent ∷ []) 6 0 [] sent-Known (Wrong.no_factory refl)
      (omega arith) (omega arith) empty_stream (omega arith) refl refl

parse_loop-ends_example :
    ((r : ParsedAll) × (parse_loop factories
          (suc (stream_of 4 (encode sent)).data_length)
          3
          (stream_of 4 (encode sent))
        ≡ some r))
    × Inside (stream_of 4 (encode sent)) (parse_packet factories 3 (stream_of 4 (encode sent)) 0)
parse_loop-ends_example =
    parse_loop-ends factories 3 (stream_of 4 (encode sent))
      (record { allocated = refl; inside = omega arith })

abbrev two_strings : List (List ℕ)
two_strings = (104 ∷ 105 ∷ []) ∷ [] ∷ []

read_strings_example :
    ((write_strings zeroed two_strings writer).overflowed ≡ false)
    × ((write_strings zeroed two_strings writer).index ≡ 10)
    × (read_strings (length two_strings) (
          reader
            (memory_of (write_strings zeroed two_strings writer).buffer)
            (write_strings zeroed two_strings writer).index)
        ≡ some (map some two_strings))
read_strings_example = read_strings-write_strings zeroed length-zeroed two_strings (omega arith)

abbrev text : List ℕ
text = 1 ∷ 200 ∷ 30 ∷ []

crc16_example : crc16 2 0xffff text 1 ≡ crc_by_bits 0xffff (bytes_at 1 2 text)
crc16_example =
    crc16_lem 2 0xffff 1 text (omega arith) (omega arith, (omega arith, (omega arith, tt)))
