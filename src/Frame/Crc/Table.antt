-- ===== src/Frame/Crc/Table.antt =====
-- The checksum by the table is the one by the bits.
use mahjong_server.Common.{
  ℕ, zero, suc, ◌+◌, ◌*◌, ◌/◌, ◌%◌, ◌^◌, ◌<◌, ◌≡◌, refl, ap, ap₂, sym, subst, ◌∙◌, Bool, true,
  false, ◌&&◌, List, [], ◌∷◌, ◌++◌, get_or, length, All, ◌==◌, arith,
}
use mahjong_server.Frame.Bytes.{bytes_at}
use mahjong_server.Frame.Crc.{
  xor_bits, crc16_table0, crc16_table1, crc16_table2, crc16_table3, crc16_table, crc16_byte, crc16,
}
use mahjong_server.Frame.Crc.Bits.{
  crc_step, crc_steps, crc_steps-lt, crc_steps-xor_bits, xor_bits-half, xor_bits-none, xor_bits-lt,
  xor_bits_sum,
}

-- Whether the entries, from a number on, are what eight steps make of their numbers.
abbrev right_from : ℕ → List ℕ → Bool
right_from i [] = true
right_from i (e ∷ es) = (e == crc_steps 8 i) && right_from (suc i) es

right_rows :
    (right_from 0 crc16_table0 ≡ true)
    × (right_from 64 crc16_table1 ≡ true)
    × (right_from 128 crc16_table2 ≡ true)
    × (right_from 192 crc16_table3 ≡ true)
unfolding crc_step
right_rows = (refl, refl, refl, refl)

right_append :
    (i k : ℕ) (l m : List ℕ)
    → right_from i l ≡ true
    → right_from k m ≡ true
    → i + length l ≡ k
    → right_from i (l ++ m) ≡ true
right_append i k [] m h g e = subst (λ j. right_from j m ≡ true) (omega arith) g
right_append i k (x ∷ l) m h g e =
    let parts = both_true (x == crc_steps 8 i) (right_from (suc i) l) h in
    rw (parts.0) (right_append (suc i) k l m parts.1 g (omega arith))
  where
    both_true : (a b : Bool) → a && b ≡ true → (a ≡ true) × (b ≡ true)
    both_true true b h = (refl, h)
    both_true false b h = ground arith

right_table : right_from 0 crc16_table ≡ true
right_table =
    right_append 0 64 crc16_table0 (crc16_table1 ++ (crc16_table2 ++ crc16_table3)) right_rows.0
      (right_append 64 128 crc16_table1 (crc16_table2 ++ crc16_table3) right_rows.1
        (right_append 128 192 crc16_table2 crc16_table3 right_rows.2 right_rows.3 refl) refl)
      refl

entry_of :
    (i j k : ℕ) (l : List ℕ)
    → right_from i l ≡ true
    → j < length l
    → i + j ≡ k
    → get_or l j 0 ≡ crc_steps 8 k
entry_of i j k [] h small e = absurd (omega arith)
entry_of i zero k (x ∷ l) h small e =
    first_true x (crc_steps 8 i) (right_from (suc i) l) h ∙ ap (crc_steps 8) (omega arith)
  where
    first_true : (a b : ℕ) (c : Bool) → (a == b) && c ≡ true → a ≡ b
    first_true a b c h = ground arith
entry_of i (suc j) k (x ∷ l) h small e =
    entry_of (suc i) j k l (second_true (x == crc_steps 8 i) (right_from (suc i) l) h) (omega arith)
      (omega arith)
  where
    second_true : (a b : Bool) → a && b ≡ true → b ≡ true
    second_true true b h = h
    second_true false b h = ground arith

-- The high byte is not touched by the byte that comes in.
high_byte : (crc byte : ℕ) → crc < 2 ^ 16 → byte < 256 → xor_bits 16 crc byte / 256 ≡ crc / 256
high_byte crc byte h k =
    let c1 = crc / 2 in
    let b1 = byte / 2 in
    let c2 = c1 / 2 in
    let b2 = b1 / 2 in
    let c3 = c2 / 2 in
    let b3 = b2 / 2 in
    let c4 = c3 / 2 in
    let b4 = b3 / 2 in
    let c5 = c4 / 2 in
    let b5 = b4 / 2 in
    let c6 = c5 / 2 in
    let b6 = b5 / 2 in
    let c7 = c6 / 2 in
    let b7 = b6 / 2 in
    omega (
      arith,
      xor_bits-half 15 crc byte,
      xor_bits-half 14 c1 b1,
      xor_bits-half 13 c2 b2,
      xor_bits-half 12 c3 b3,
      xor_bits-half 11 c4 b4,
      xor_bits-half 10 c5 b5,
      xor_bits-half 9 c6 b6,
      xor_bits-half 8 c7 b7,
      xor_bits-none 8 (c7 / 2) (b7 / 2) (omega arith) (omega arith),
    )

crc16_byte_lem :
    (crc byte : ℕ)
    → crc < 2 ^ 16
    → byte < 256
    → crc16_byte crc byte ≡ crc_steps 8 (xor_bits 16 crc byte)
unfolding crc16_byte
crc16_byte_lem crc byte h k =
    let x = xor_bits 16 crc byte in
    let small : x < 2 ^ 16 = xor_bits-lt 16 crc byte in
    let low = x % 256 in
    let high = x / 256 in
    ap₂ (xor_bits 16) (sym (high_byte crc byte h k))
      (entry_of 0 low low crc16_table right_table (omega arith) (omega arith))
    ∙ sym (crc_steps-xor_bits 8 high (256 * high) low (omega arith) refl (omega arith))
    ∙ ap (crc_steps 8) (
        xor_bits_sum 8 8 high low 16 (256 * high) refl refl (omega arith) (omega arith)
        ∙ omega arith)

byte_small : (buffer : List ℕ) (i : ℕ) → All (λ b. b < 256) buffer → get_or buffer i 0 < 256
byte_small [] i small = omega arith
byte_small (b ∷ buffer) zero (first, others) = first
byte_small (b ∷ buffer) (suc i) (first, others) = byte_small buffer i others

-- The checksum of some bytes, bit by bit: each byte is put into the low bits, then there are eight steps.
abbrev pub crc_by_bits : ℕ → List ℕ → ℕ
crc_by_bits crc [] = crc
crc_by_bits crc (byte ∷ bytes) = crc_by_bits (crc_steps 8 (xor_bits 16 crc byte)) bytes

-- For a 16 bit number to start with, the checksum of a part of a block of bytes by the table of 256
-- entries is the one that goes bit by bit: a bit that falls out at the low end is taken off with
-- the polynomial 0xa001.
pub crc16_lem :
    (len crc buffer_offset : ℕ) (buffer : List ℕ)
    → crc < 2 ^ 16
    → All (λ b. b < 256) buffer
    → crc16 len crc buffer buffer_offset ≡ crc_by_bits crc (bytes_at buffer_offset len buffer)
unfolding crc16
crc16_lem zero crc buffer_offset buffer h small = refl
crc16_lem (suc len) crc buffer_offset buffer h small =
    let byte = get_or buffer buffer_offset 0 in
    let e = crc16_byte_lem crc byte h (byte_small buffer buffer_offset small) in
    ap (λ c. crc16 len c buffer (suc buffer_offset)) e
    ∙ crc16_lem len (crc_steps 8 (xor_bits 16 crc byte)) (suc buffer_offset) buffer
        (crc_steps-lt 8 (xor_bits 16 crc byte) (xor_bits-lt 16 crc byte)) small
