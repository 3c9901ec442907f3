-- ===== src/Frame/NetClient/Parse.antt =====
-- What one round of parsing makes of the bytes received.
use mahjong_server.Common.{
  ℕ, ◌+◌, ◌-◌, ◌^◌, ◌≤◌, ◌<◌, ◌≡◌, ◌≢◌, inl, inr, refl, ap, ap₂, sym, ◌∙◌, Bool, true, false, List,
  ◌++◌, Option, none, some, length, length-append, arith, ltb-false, ltb-true, leb, leb-true,
  leb-false, leb-cases, ==-true, ==-false, if◌then◌else◌,
}
use mahjong_server.Frame.Bytes.{bytes_at, rest_after}
use mahjong_server.Frame.Bytes.Laws.{split_at_row, bytes_at-rest_after}
use mahjong_server.Frame.Stream.{StreamBuffer, get_data}
use mahjong_server.Frame.Stream.Queue.{IsStream}
use mahjong_server.Frame.Stream.Adds.{length-get_data}
use mahjong_server.Frame.Binary.{read}
use mahjong_server.Frame.Binary.RoundTrip.{stored, read-stored}
use mahjong_server.Frame.SerializedData.{total_size, read_from_buffer}
use mahjong_server.Frame.SerializedData.RoundTrip.{
  SameShape, all_bytes, length-all_bytes, read_parameters_lem,
}
use mahjong_server.Frame.NetClient.{
  header_size, Packet, ParseResult, Parsed, parse_sized, parse_headed, parse_packet,
}
use mahjong_server.Frame.NetClient.Encode.{encode}

-- Data with a header in front, and its parts in memory.
record IsHeaded (s : StreamBuffer) (packet_type packet_size : ℕ) (others : List ℕ) : Type 0 where
  enough : s.data_length ≡ header_size + length others
  typed : bytes_at 0 4 (rest_after s.data_start s.buffer) ≡ stored false 4 packet_type
  sized : bytes_at 4 4 (rest_after s.data_start s.buffer) ≡ stored false 4 packet_size
  behind : bytes_at (s.data_start + 8) (length others) s.buffer ≡ others

headed_lem :
    (s : StreamBuffer) (packet_type packet_size : ℕ) (others : List ℕ)
    → get_data s ≡ stored false 4 packet_type ++ (stored false 4 packet_size ++ others)
    → IsHeaded s packet_type packet_size others
headed_lem s packet_type packet_size others e =
    let parts =
      split_at_row (stored false 4 packet_type) (stored false 4 packet_size ++ others) s.data_start
        s.data_length s.buffer e in
    let inner =
      split_at_row (stored false 4 packet_size) others (s.data_start + 4)
        (length (stored false 4 packet_size ++ others)) s.buffer parts.1 in
    record {
      enough = omega (arith, length-get_data s, ap length e);
      typed = bytes_at-rest_after s.data_start 0 4 s.data_start s.buffer (omega arith) ∙ parts.0;
      sized = bytes_at-rest_after s.data_start 4 4 (s.data_start + 4) s.buffer refl ∙ inner.0;
      behind =
          ap (λ i. bytes_at i (length others) s.buffer) {x = s.data_start + 8}
            {y = s.data_start + 4 + 4} (omega arith)
          ∙ inner.1;
    }

abbrev pub waiting : Parsed
waiting = record { result = ParseResult.not_enough; index = 0; packet = none }

abbrev pub refused : Parsed
refused = record { result = ParseResult.error; index = 8; packet = none }

-- The packet as it is received: marked with the client it came from.
abbrev pub marked : ℕ → Packet → Packet
marked guid p = record p { client_id = some guid }

module _ (factory_list : ℕ → Option Packet) where
  parse_packet_headed :
      (guid : ℕ) (s : StreamBuffer) (packet_type packet_size : ℕ) (others : List ℕ)
      → IsStream s
      → IsHeaded s packet_type packet_size others
      → packet_type < 256 ^ 4
      → packet_size < 256 ^ 4
      → parse_packet factory_list guid s 0
        ≡ parse_headed factory_list guid s 0 packet_type (packet_size, 8)
  unfolding parse_packet
  parse_packet_headed guid s packet_type packet_size others ok h small_type small_size =
      let memory = rest_after s.data_start s.buffer in
      let size = s.buffer_size - s.data_start in
      ap (λ r. parse_headed factory_list guid s 0 r.0 (read 4 memory size r.1 false))
        (read-stored false 4 0 packet_type size memory small_type
          (omega (arith, ok.inside, h.enough)) h.typed)
      ∙ ap (parse_headed factory_list guid s 0 packet_type) (
          read-stored false 4 4 packet_size size memory small_size
            (omega (arith, ok.inside, h.enough)) h.sized)

  -- A packet that the registered factory of its type can take in.
  pub record IsKnown (p created : Packet) : Type 0 where
    pub found : factory_list p.packet_type ≡ some created
    pub typed : created.packet_type ≡ p.packet_type
    pub same_size : created.contents.data_size ≡ p.contents.data_size
    pub sized : p.contents.data_size ≡ total_size p.contents.data_parameter_list
    pub same_shape : SameShape p.contents.data_parameter_list created.contents.data_parameter_list
    pub small_type : p.packet_type < 256 ^ 4
    pub small_size : p.contents.data_size < 2 ^ 31

  same_packet :
      (guid : ℕ) (p created : Packet)
      → created.packet_type ≡ p.packet_type
      → created.contents.data_size ≡ p.contents.data_size
      → Path Packet
          (record created {
            contents = record created.contents {
              data_parameter_list = p.contents.data_parameter_list;
            };
            client_id = some guid;
          })
          (marked guid p)
  same_packet guid p created e f =
      ap₂
        (λ t n. record {
          packet_type = t;
          client_id = some guid;
          contents = record { data_parameter_list = p.contents.data_parameter_list; data_size = n };
        })
        e f

  parse_headed-known :
      (guid : ℕ) (s : StreamBuffer) (p created : Packet) (tail : List ℕ)
      → IsKnown p created
      → IsHeaded s p.packet_type p.contents.data_size
          (all_bytes p.contents.data_parameter_list ++ tail)
      → parse_headed factory_list guid s 0 p.packet_type (p.contents.data_size, 8) ≡ record {
        result = ParseResult.success;
        index = 8 + p.contents.data_size;
        packet = some (marked guid p);
      }
  unfolding parse_headed parse_sized read_from_buffer
  parse_headed-known guid s p created tail known h =
      let ps = p.contents.data_parameter_list in
      let n = length-all_bytes ps in
      let m = length-append (all_bytes ps) tail in
      let memory = rest_after (s.data_start + 8) s.buffer in
      let content : bytes_at 0 (total_size ps) memory ≡ all_bytes ps =
        bytes_at-rest_after (s.data_start + 8) 0 (total_size ps) (s.data_start + 8) s.buffer
          (omega arith)
        ∙ ap (λ k. bytes_at (s.data_start + 8) k s.buffer) (sym n)
        ∙ (split_at_row (all_bytes ps) tail (s.data_start + 8) (length (all_bytes ps ++ tail))
            s.buffer h.behind).0 in
      rw
        (
          ltb-false s.data_length (0 + header_size) (omega (arith, h.enough)),
          leb-false (2 ^ 31) p.contents.data_size known.small_size,
          known.found,
          ==-true p.contents.data_size created.contents.data_size (sym known.same_size),
          ltb-false s.data_length (8 + p.contents.data_size) (omega (arith, h.enough, known.sized)),
          read_parameters_lem ps created.contents.data_parameter_list memory p.contents.data_size 0
              known.same_shape (omega (arith, known.sized)) content,
        )
        (ap
          (λ q. record {
            result = ParseResult.success;
            index = 8 + p.contents.data_size;
            packet = some q;
          })
          (same_packet guid p created known.typed known.same_size))

  -- With a whole known packet in front, it is taken, and the index goes behind it.
  pub parse_packet-known :
      (guid : ℕ) (s : StreamBuffer) (p created : Packet) (tail : List ℕ)
      → IsStream s
      → IsKnown p created
      → get_data s ≡ encode p ++ tail
      → parse_packet factory_list guid s 0 ≡ record {
        result = ParseResult.success;
        index = 8 + p.contents.data_size;
        packet = some (marked guid p);
      }
  parse_packet-known guid s p created tail ok known e =
      let behind = all_bytes p.contents.data_parameter_list ++ tail in
      let h = headed_lem s p.packet_type p.contents.data_size behind e in
      parse_packet_headed guid s p.packet_type p.contents.data_size behind ok h known.small_type
        (omega (arith, known.small_size))
      ∙ parse_headed-known guid s p created tail known h

  -- Less than a header, or the header of a known packet with less than its parameters behind it.
  pub data Partial : List ℕ → Type 0 where
    no_header : {l : List ℕ} → length l < header_size → Partial l
    no_contents :
        {p created : Packet} {part : List ℕ}
        → IsKnown p created
        → length part < p.contents.data_size
        → Partial (stored false 4 p.packet_type ++ (stored false 4 p.contents.data_size ++ part))

  parse_headed-short :
      (guid packet_type : ℕ) (sized : ℕ × ℕ) (s : StreamBuffer)
      → s.data_length < header_size
      → parse_headed factory_list guid s 0 packet_type sized ≡ waiting
  unfolding parse_headed
  parse_headed-short guid packet_type sized s few =
      rw (ltb-true s.data_length (0 + header_size) (omega arith)) refl

  parse_headed-waiting :
      (guid : ℕ) (s : StreamBuffer) (p created : Packet) (part : List ℕ)
      → IsKnown p created
      → length part < p.contents.data_size
      → s.data_length ≡ header_size + length part
      → parse_headed factory_list guid s 0 p.packet_type (p.contents.data_size, 8) ≡ waiting
  unfolding parse_headed parse_sized
  parse_headed-waiting guid s p created part known few e =
      rw
        (
          ltb-false s.data_length (0 + header_size) (omega arith),
          leb-false (2 ^ 31) p.contents.data_size known.small_size,
          known.found,
          ==-true p.contents.data_size created.contents.data_size (sym known.same_size),
          ltb-true s.data_length (8 + p.contents.data_size) (omega arith),
        )
        refl

  pub waits :
      (guid : ℕ) (s : StreamBuffer) (l : List ℕ)
      → IsStream s
      → Partial l
      → get_data s ≡ l
      → parse_packet factory_list guid s 0 ≡ waiting
  unfolding parse_packet
  waits guid s l ok (no_header few) e =
      let memory = rest_after s.data_start s.buffer in
      let size = s.buffer_size - s.data_start in
      let head = read 4 memory size 0 false in
      parse_headed-short guid head.0 (read 4 memory size head.1 false) s
        (omega (arith, length-get_data s, ap length e))
  waits guid s l ok (no_contents {p} {created} {part} known few) e =
      let h = headed_lem s p.packet_type p.contents.data_size part e in
      parse_packet_headed guid s p.packet_type p.contents.data_size part ok h known.small_type
        (omega (arith, known.small_size))
      ∙ parse_headed-waiting guid s p created part known few h.enough

  -- A header whose size is negative or is not the one of its type's packets, or whose type has none.
  pub data Wrong (packet_type packet_size : ℕ) : Type 0 where
    negative : 2 ^ 31 ≤ packet_size → Wrong packet_type packet_size
    no_factory : factory_list packet_type ≡ none → Wrong packet_type packet_size
    other_size :
        {created : Packet}
        → factory_list packet_type ≡ some created
        → packet_size ≢ created.contents.data_size
        → Wrong packet_type packet_size

  parse_sized-Wrong :
      (guid : ℕ) (s : StreamBuffer) (packet_type packet_size : ℕ)
      → Wrong packet_type packet_size
      → 8 ≤ s.data_length
      → parse_headed factory_list guid s 0 packet_type (packet_size, 8) ≡ refused
  unfolding parse_headed parse_sized
  parse_sized-Wrong guid s packet_type packet_size (negative large) enough =
      rw
        (
          ltb-false s.data_length (0 + header_size) (omega arith),
          leb-true (2 ^ 31) packet_size large,
        )
        refl
  parse_sized-Wrong guid s packet_type packet_size (no_factory unknown) enough =
      rw (ltb-false s.data_length (0 + header_size) (omega arith), unknown)
        (either_error (leb (2 ^ 31) packet_size))
    where
      either_error : (b : Bool) → (if b then refused else refused) ≡ refused
      either_error true = refl
      either_error false = refl
  parse_sized-Wrong guid s packet_type packet_size (other_size {created} found ne) enough =
      elim (leb-cases (2 ^ 31) packet_size) [
        | inl large ↦
            rw
              (
                ltb-false s.data_length (0 + header_size) (omega arith),
                leb-true (2 ^ 31) packet_size large,
              )
              refl
        | inr small ↦
            rw
              (
                ltb-false s.data_length (0 + header_size) (omega arith),
                leb-false (2 ^ 31) packet_size small,
                found,
                ==-false packet_size created.contents.data_size ne,
              )
              refl
      ]

  pub parse_packet-Wrong :
      (guid : ℕ) (s : StreamBuffer) (packet_type packet_size : ℕ) (tail : List ℕ)
      → IsStream s
      → Wrong packet_type packet_size
      → packet_type < 256 ^ 4
      → packet_size < 256 ^ 4
      → get_data s ≡ stored false 4 packet_type ++ (stored false 4 packet_size ++ tail)
      → parse_packet factory_list guid s 0 ≡ refused
  parse_packet-Wrong guid s packet_type packet_size tail ok wrong small_type small_size e =
      let h = headed_lem s packet_type packet_size tail e in
      parse_packet_headed guid s packet_type packet_size tail ok h small_type small_size
      ∙ parse_sized-Wrong guid s packet_type packet_size wrong (omega (arith, h.enough))
