-- ===== src/Frame/NetClient/Progress.antt =====
-- Parsing goes forward, stays inside the data, and ends.
use mahjong_server.Common.{
  ℕ, zero, suc, ◌+◌, ◌-◌, ◌≤◌, ◌<◌, ◌≡◌, refl, ap, ◌∙◌, true, false, inl, inr, List, [], Option,
  none, some, arith, ltb-false, leb-true, leb-cases,
}
use mahjong_server.Frame.Bytes.{rest_after}
use mahjong_server.Frame.Stream.{StreamBuffer, remove_data_from_input_buffer}
use mahjong_server.Frame.Stream.Queue.{IsStream}
use mahjong_server.Frame.Binary.{read}
use mahjong_server.Frame.NetClient.{
  header_size, Packet, ParseResult, Parsed, ParsedAll, parse_sized, parse_headed, parse_packet,
  parse_loop, parse_next, put_first_of, put_first,
}

-- Where a packet was parsed the index went on by a header at least, and not past the data.
abbrev pub Inside : StreamBuffer → Parsed → Type 0
Inside s p = p.result ≡ ParseResult.success → (header_size ≤ p.index) × (p.index ≤ s.data_length)

read-index :
    (m : List ℕ) (size index : ℕ) → index + 4 ≤ size → (read 4 m size index false).1 ≡ index + 4
unfolding read
read-index m size index room = rw (ltb-false size (index + 4) room) refl

module _ (factory_list : ℕ → Option Packet) where
  parse_sized-Inside :
      (guid : ℕ) (s : StreamBuffer) (packet_size : ℕ) (created : Option Packet)
      → Inside s (parse_sized factory_list guid s packet_size 8 created)
  unfolding parse_sized
  parse_sized-Inside guid s packet_size none e = ground arith
  parse_sized-Inside guid s packet_size (some created) e = ground arith

  parse_headed-Inside :
      (guid : ℕ) (s : StreamBuffer) (packet_type : ℕ) (sized : ℕ × ℕ)
      → (header_size ≤ s.data_length → sized.1 ≡ 8)
      → Inside s (parse_headed factory_list guid s 0 packet_type sized)
  unfolding parse_headed
  parse_headed-Inside guid s packet_type (size, index) behind e =
      elim (leb-cases (0 + header_size) s.data_length) [
        | inl enough ↦
            ground (arith, behind, parse_sized-Inside guid s size (factory_list packet_type))
        | inr few ↦ ground arith
      ]

  -- One round of parsing that takes a packet goes on by at least a header, and not past the data.
  pub parse_packet-Inside :
      (guid : ℕ) (s : StreamBuffer) → IsStream s → Inside s (parse_packet factory_list guid s 0)
  unfolding parse_packet
  parse_packet-Inside guid s ok =
      let m = rest_after s.data_start s.buffer in
      let size = s.buffer_size - s.data_start in
      let head = read 4 m size 0 false in
      parse_headed-Inside guid s head.0 (read 4 m size head.1 false) λ enough.
        let first = read-index m size 0 (omega (arith, ok.inside)) in
        ap (λ i. (read 4 m size i false).1) first ∙ read-index m size 4 (omega (arith, ok.inside))

  -- The data left is a stream still, and shorter, after a packet was taken.
  remove_lem :
      (count : ℕ) (s : StreamBuffer)
      → IsStream s
      → count ≤ s.data_length
      → header_size ≤ count
      → IsStream (remove_data_from_input_buffer count s)
        × ((remove_data_from_input_buffer count s).data_length < s.data_length)
  unfolding remove_data_from_input_buffer
  remove_lem count s ok fits large =
      rw (leb-true count s.data_length fits)
        (record { allocated = ok.allocated; inside = omega (arith, ok.inside) }, omega arith)

  put_first_of-some :
      (p : Option Packet) (r : Option ParsedAll)
      → (a : ParsedAll) × (r ≡ some a)
      → (a : ParsedAll) × (put_first_of p r ≡ some a)
  put_first_of-some p r (a, e) = (put_first p a, ap (put_first_of p) e)

  next_ends :
      (others : ℕ → Option ParsedAll) (s : StreamBuffer)
      → ((i : ℕ) → header_size ≤ i → i ≤ s.data_length → (r : ParsedAll) × (others i ≡ some r))
      → (result : ParseResult) (i : ℕ) (q : Option Packet)
      → Inside s (record { result = result; index = i; packet = q })
      → (r : ParsedAll) × (parse_next others s (record { result = result; index = i; packet = q })
          ≡ some r)
  next_ends others s later ParseResult.success i q inside =
      let bounds = inside refl in put_first_of-some q (others i) (later i bounds.0 bounds.1)
  next_ends others s later ParseResult.error i q inside =
      (record { packet_list = []; stream = s; ret = false }, refl)
  next_ends others s later ParseResult.not_enough i q inside =
      (record { packet_list = []; stream = s; ret = true }, refl)

  loop_ends :
      (rounds guid : ℕ) (s : StreamBuffer)
      → IsStream s
      → s.data_length < rounds
      → (r : ParsedAll) × (parse_loop factory_list rounds guid s ≡ some r)
  unfolding parse_loop
  loop_ends zero guid s ok h = absurd (omega arith)
  loop_ends (suc rounds) guid s ok h =
      let p = parse_packet factory_list guid s 0 in
      next_ends (λ i. parse_loop factory_list rounds guid (remove_data_from_input_buffer i s)) s
        (λ i large fits.
          let less = remove_lem i s ok fits large in
          loop_ends rounds guid (remove_data_from_input_buffer i s) less.0 (omega arith))
        p.result p.index p.packet (parse_packet-Inside guid s ok)

  -- The loop of parseData ends, whatever bytes were received: one round more than there are bytes is
  -- enough, and every packet it takes lies inside the data.
  pub parse_loop-ends :
      (guid : ℕ) (s : StreamBuffer)
      → IsStream s
      → ((r : ParsedAll) × (parse_loop factory_list (suc s.data_length) guid s ≡ some r))
        × Inside s (parse_packet factory_list guid s 0)
  parse_loop-ends guid s ok =
      (loop_ends (suc s.data_length) guid s ok (omega arith), parse_packet-Inside guid s ok)
