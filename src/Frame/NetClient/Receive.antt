-- ===== src/Frame/NetClient/Receive.antt =====
-- What parsing makes of all the bytes received: the packets that were sent.
use mahjong_server.Common.{
  ℕ, zero, suc, ◌+◌, ◌^◌, ◌≤◌, ◌<◌, ◌≡◌, ap, sym, ◌∙◌, Bool, true, false, List, [], ◌∷◌, ◌++◌,
  Option, some, length, length-append, arith, map, All,
}
use mahjong_server.Frame.Stream.{StreamBuffer, get_data, remove_data_from_input_buffer}
use mahjong_server.Frame.Stream.Queue.{IsStream}
use mahjong_server.Frame.Stream.Adds.{length-get_data}
use mahjong_server.Frame.Binary.RoundTrip.{stored}
use mahjong_server.Frame.SerializedData.RoundTrip.{length-all_bytes}
use mahjong_server.Frame.NetClient.{
  Packet, NetClient, ParseResult, ParsedAll, parse_packet, parse_loop, put_first_of, parse_next,
  execute_if, with_parsed, sync_recv, parse_data,
}
use mahjong_server.Frame.NetClient.Encode.{encode, add_data-room}
use mahjong_server.Frame.NetClient.Parse.{
  IsKnown, marked, Partial, Wrong, waiting, refused, parse_packet-known, waits, parse_packet-Wrong,
}
use mahjong_server.Frame.NetClient.Rows.{
  encode_all, append_assoc, remove_front, received, history, append_packets_assoc, append_none,
  execute_if-Same,
}

module _ (factory_list : ℕ → Option Packet) where
  -- Each of the packets is known.
  abbrev pub Known : List Packet → Type 0
  Known ps = All (λ p. (created : Packet) × IsKnown factory_list p created) ps

  record Takes (ret : Bool) (r : Option ParsedAll) (packets : List Packet) (tail : List ℕ)
      : Type 0 where
    stream : StreamBuffer
    is_stream : IsStream stream
    left : get_data stream ≡ tail
    result : r ≡ some (record { packet_list = packets; stream = stream; ret = ret })

  loop-waits :
      (rounds guid : ℕ) (s : StreamBuffer)
      → parse_packet factory_list guid s 0 ≡ waiting
      → parse_loop factory_list (suc rounds) guid s
        ≡ some (record { packet_list = []; stream = s; ret = true })
  unfolding parse_loop
  loop-waits rounds guid s e =
      ap
        (parse_next (λ i. parse_loop factory_list rounds guid (remove_data_from_input_buffer i s))
          s)
        e

  -- The loop ends at the bytes `tail`, with the result `ret`.
  abbrev Ends : ℕ → List ℕ → Bool → Type 0
  Ends guid tail ret =
      (rounds : ℕ) (s : StreamBuffer)
      → IsStream s
      → get_data s ≡ tail
      → parse_loop factory_list (suc rounds) guid s
        ≡ some (record { packet_list = []; stream = s; ret = ret })

  Ends-Partial : (guid : ℕ) (tail : List ℕ) → Partial factory_list tail → Ends guid tail true
  Ends-Partial guid tail partial rounds s ok e =
      loop-waits rounds guid s (waits factory_list guid s tail ok partial e)

  loop-refuses :
      (rounds guid : ℕ) (s : StreamBuffer)
      → parse_packet factory_list guid s 0 ≡ refused
      → parse_loop factory_list (suc rounds) guid s
        ≡ some (record { packet_list = []; stream = s; ret = false })
  unfolding parse_loop
  loop-refuses rounds guid s e =
      ap
        (parse_next (λ i. parse_loop factory_list rounds guid (remove_data_from_input_buffer i s))
          s)
        e

  Ends-Wrong :
      (guid packet_type packet_size : ℕ) (others : List ℕ)
      → Wrong factory_list packet_type packet_size
      → packet_type < 256 ^ 4
      → packet_size < 256 ^ 4
      → Ends guid (stored false 4 packet_type ++ (stored false 4 packet_size ++ others)) false
  Ends-Wrong guid packet_type packet_size others wrong small_type small_size rounds s ok e =
      loop-refuses rounds guid s (
        parse_packet-Wrong factory_list guid s packet_type packet_size others ok wrong small_type
          small_size e)

  loop-takes :
      (rounds guid index : ℕ) (p : Packet) (s : StreamBuffer)
      → parse_packet factory_list guid s 0
        ≡ record { result = ParseResult.success; index = index; packet = some p }
      → parse_loop factory_list (suc rounds) guid s
        ≡ put_first_of
            (some p)
            (parse_loop factory_list rounds guid (remove_data_from_input_buffer index s))
  unfolding parse_loop
  loop-takes rounds guid index p s e =
      ap
        (parse_next (λ i. parse_loop factory_list rounds guid (remove_data_from_input_buffer i s))
          s)
        e

  pub length-encode :
      (p created : Packet)
      → IsKnown factory_list p created
      → length (encode p) ≡ 8 + p.contents.data_size
  length-encode p created known =
      omega (arith, length-all_bytes p.contents.data_parameter_list, known.sized)

  parse_loop-Takes :
      (ret : Bool) (ps : List Packet) (rounds guid : ℕ) (s : StreamBuffer) (tail : List ℕ)
      → Known ps
      → Ends guid tail ret
      → IsStream s
      → get_data s ≡ encode_all ps ++ tail
      → length ps < rounds
      → Takes ret (parse_loop factory_list rounds guid s) (map (marked guid) ps) tail
  parse_loop-Takes ret ps zero guid s tail known ends ok e h = absurd (omega arith)
  parse_loop-Takes ret [] (suc rounds) guid s tail known ends ok e h = record {
    stream = s;
    is_stream = ok;
    left = e;
    result = ends rounds s ok e;
  }
  parse_loop-Takes ret (p ∷ ps) (suc rounds) guid s tail ((created, known), others) ends ok e h =
      let front : get_data s ≡ encode p ++ (encode_all ps ++ tail) =
        e ∙ append_assoc (encode p) (encode_all ps) tail in
      let index = 8 + p.contents.data_size in
      let behind =
        remove_front (encode p) (encode_all ps ++ tail) index s ok front
          (length-encode p created known) in
      let r =
        parse_loop-Takes ret ps rounds guid (remove_data_from_input_buffer index s) tail others ends
          behind.0 behind.1 (omega arith) in
      record {
        stream = r.stream;
        is_stream = r.is_stream;
        left = r.left;
        result =
            loop-takes rounds guid index (marked guid p) s (
              parse_packet-known factory_list guid s p created (encode_all ps ++ tail) ok known
                front)
            ∙ ap (put_first_of (some (marked guid p))) r.result;
      }

  rounds_lem :
      (ps : List Packet) (tail : List ℕ) → Known ps → length ps ≤ length (encode_all ps ++ tail)
  rounds_lem [] tail known = omega arith
  rounds_lem (p ∷ ps) tail ((created, known), others) = omega (
    arith,
    rounds_lem ps tail others,
    length-encode p created known,
    ap length (append_assoc (encode p) (encode_all ps) tail),
    length-append (encode p) (encode_all ps ++ tail),
  )

  parse_data-parts :
      (ret : Bool) (c : NetClient) (ps : List Packet) (tail : List ℕ)
      → Known ps
      → Ends c.client_guid tail ret
      → IsStream c.recv_stream
      → c.temp_recv_stream.data_length + c.recv_stream.data_length ≤ c.recv_stream.buffer_size
      → received c ≡ encode_all ps ++ tail
      → Takes ret
          (parse_loop factory_list
            (suc (sync_recv c).recv_stream.data_length)
            c.client_guid
            (sync_recv c).recv_stream)
          (map (marked c.client_guid) ps)
          tail
  parse_data-parts ret c ps tail known ends ok room e =
      let n = length-get_data c.temp_recv_stream in
      let synced = add_data-room (get_data c.temp_recv_stream) c.recv_stream ok (omega arith) in
      let whole : get_data (sync_recv c).recv_stream ≡ encode_all ps ++ tail = synced.1 ∙ e in
      parse_loop-Takes ret ps (suc (sync_recv c).recv_stream.data_length) c.client_guid
        (sync_recv c).recv_stream tail known ends synced.0 whole
        (omega (
          arith,
          rounds_lem ps tail known,
          ap length whole,
          length-get_data (sync_recv c).recv_stream,
        ))

  -- The bytes that a client has received are whole packets of registered types, then at most a part
  -- of one, there is room for them, and no packet is being executed: parsing takes in exactly those
  -- packets, in their order and each marked with the client, behind those taken in before, whether
  -- they are executed at once or wait for it. The part is kept for later, and the client lives on.
  pub parse_data-encode_all :
      (c : NetClient) (ps : List Packet) (tail : List ℕ)
      → Known ps
      → Partial factory_list tail
      → IsStream c.recv_stream
      → c.temp_recv_stream.data_length + c.recv_stream.data_length ≤ c.recv_stream.buffer_size
      → c.read_list ≡ []
      → received c ≡ encode_all ps ++ tail
      → (history (parse_data factory_list c) ≡ history c ++ map (marked c.client_guid) ps)
        × (received (parse_data factory_list c) ≡ tail)
        × ((parse_data factory_list c).is_dead_client ≡ c.is_dead_client)
        × ((parse_data factory_list c).read_list ≡ [])
  unfolding parse_data
  parse_data-encode_all c ps tail known partial ok room idle e =
      let r =
        parse_data-parts true c ps tail known (Ends-Partial c.client_guid tail partial) ok room e in
      let after = record (sync_recv c) {
        recv_stream = r.stream;
        write_list = c.write_list ++ map (marked c.client_guid) ps;
      } in
      let same = execute_if-Same c.async_execute after idle in
      let done : parse_data factory_list c ≡ execute_if c.async_execute after =
        ap (with_parsed (sync_recv c)) r.result in
      (
        ap history done
            ∙ same.taken
            ∙ sym (append_packets_assoc c.executed c.write_list (map (marked c.client_guid) ps)),
        ap received done ∙ same.bytes ∙ append_none (get_data r.stream) ∙ r.left,
        ap (λ d. d.is_dead_client) done ∙ same.alive,
        ap (λ d. d.read_list) done ∙ same.emptied,
      )

  -- The bytes that a client has received are whole packets of registered types and then a header
  -- whose size is negative, or not that of its type's packets, or whose type has none; there is room
  -- for them and no packet is being executed: parsing takes in exactly the packets in front, and
  -- marks the client as dead.
  pub parse_data-Wrong :
      (c : NetClient) (ps : List Packet) (packet_type packet_size : ℕ) (others : List ℕ)
      → Known ps
      → Wrong factory_list packet_type packet_size
      → packet_type < 256 ^ 4
      → packet_size < 256 ^ 4
      → IsStream c.recv_stream
      → c.temp_recv_stream.data_length + c.recv_stream.data_length ≤ c.recv_stream.buffer_size
      → c.read_list ≡ []
      → received c
        ≡ encode_all ps ++ (stored false 4 packet_type ++ (stored false 4 packet_size ++ others))
      → (history (parse_data factory_list c) ≡ history c ++ map (marked c.client_guid) ps)
        × ((parse_data factory_list c).is_dead_client ≡ true)
  unfolding parse_data
  parse_data-Wrong c ps packet_type packet_size others known wrong small_type small_size ok room
        idle e =
      let tail = stored false 4 packet_type ++ (stored false 4 packet_size ++ others) in
      let r =
        parse_data-parts false c ps tail known
          (Ends-Wrong c.client_guid packet_type packet_size others wrong small_type small_size) ok
          room e in
      let after = record (sync_recv c) {
        recv_stream = r.stream;
        is_dead_client = true;
        write_list = c.write_list ++ map (marked c.client_guid) ps;
      } in
      let same = execute_if-Same c.async_execute after idle in
      let done : parse_data factory_list c ≡ execute_if c.async_execute after =
        ap (with_parsed (sync_recv c)) r.result in
      (
        ap history done
            ∙ same.taken
            ∙ sym (append_packets_assoc c.executed c.write_list (map (marked c.client_guid) ps)),
        ap (λ d. d.is_dead_client) done ∙ same.alive,
      )
