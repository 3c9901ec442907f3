-- ===== src/Frame/Text/Hex.antt =====
-- StringUtility: bytes as hexadecimal digits.
use mahjong_server.Common.{
  ℕ, zero, suc, ◌+◌, ◌-◌, ◌*◌, ◌/◌, ◌%◌, ◌<◌, ◌≡◌, refl, ap₂, Bool, true, false, List, [], ◌∷◌,
  ◌++◌, ltb, ltb-true, ltb-false, leb-cases, inl, inr, if◌then◌else◌, get_or, All, arith,
}

abbrev pub char_pool : Bool → List ℕ
char_pool upper =
    if upper then 65 ∷ 66 ∷ 67 ∷ 68 ∷ 69 ∷ 70 ∷ [] else 97 ∷ 98 ∷ 99 ∷ 100 ∷ 101 ∷ 102 ∷ []

unfoldable pub hex_char : Bool → ℕ → ℕ
hex_char upper bits = if ltb bits 10 then 48 + bits else get_or (char_pool upper) (bits - 10) 0

unfoldable pub char_to_hex_string : ℕ → Bool → List ℕ
unfolding hex_char
char_to_hex_string byte upper = hex_char upper (byte / 16) ∷ hex_char upper (byte % 16) ∷ []

-- The letter case that is asked for is not passed on: the digits are upper case.
unfoldable pub char_array_to_hex_string : List ℕ → Bool → Bool → List ℕ
unfolding char_to_hex_string
char_array_to_hex_string [] add_space upper = []
char_array_to_hex_string (byte ∷ bytes) add_space upper =
    char_to_hex_string byte true
    ++ ((if add_space then 32 ∷ [] else []) ++ char_array_to_hex_string bytes add_space upper)

-- The value of an upper case digit, and the bytes that pairs of them, each with a space behind it or
-- not, stand for.
abbrev pub digit_value : ℕ → ℕ
digit_value c = if ltb c 58 then c - 48 else c - 55

abbrev pub of_hex : Bool → List ℕ → List ℕ
of_hex true (a ∷ b ∷ space ∷ l) = (digit_value a * 16 + digit_value b) ∷ of_hex true l
of_hex true l = []
of_hex false (a ∷ b ∷ l) = (digit_value a * 16 + digit_value b) ∷ of_hex false l
of_hex false l = []

letter : (k : ℕ) → k < 6 → get_or (char_pool true) k 0 ≡ 65 + k
letter zero h = refl
letter (suc zero) h = refl
letter (suc (suc zero)) h = refl
letter (suc (suc (suc zero))) h = refl
letter (suc (suc (suc (suc zero)))) h = refl
letter (suc (suc (suc (suc (suc zero))))) h = refl
letter (suc (suc (suc (suc (suc (suc k)))))) h = absurd (omega arith)

digit_value-hex_char : (bits : ℕ) → bits < 16 → digit_value (hex_char true bits) ≡ bits
unfolding hex_char
digit_value-hex_char bits h = elim (leb-cases 10 bits) [
  | inl large ↦
      rw
        (
          ltb-false bits 10 large,
          letter (bits - 10) (omega arith),
          ltb-false (65 + (bits - 10)) 58 (omega arith),
        )
        (omega arith)
  | inr small ↦ rw (ltb-true bits 10 small, ltb-true (48 + bits) 58 (omega arith)) (omega arith)
]

both :
    (b : ℕ)
    → b < 256
    → digit_value (hex_char true (b / 16)) * 16 + digit_value (hex_char true (b % 16)) ≡ b
both b h = omega (
  arith,
  digit_value-hex_char (b / 16) (omega arith),
  digit_value-hex_char (b % 16) (omega arith),
)

-- The hexadecimal text of bytes, with spaces or without, stands for these bytes.
pub of_hex-char_array_to_hex_string :
    (bytes : List ℕ) (add_space upper : Bool)
    → All (λ b. b < 256) bytes
    → of_hex add_space (char_array_to_hex_string bytes add_space upper) ≡ bytes
unfolding char_array_to_hex_string char_to_hex_string
of_hex-char_array_to_hex_string [] true upper small = refl
of_hex-char_array_to_hex_string [] false upper small = refl
of_hex-char_array_to_hex_string (b ∷ bytes) true upper (first, others) =
    ap₂ ◌∷◌ (both b first) (of_hex-char_array_to_hex_string bytes true upper others)
of_hex-char_array_to_hex_string (b ∷ bytes) false upper (first, others) =
    ap₂ ◌∷◌ (both b first) (of_hex-char_array_to_hex_string bytes false upper others)
