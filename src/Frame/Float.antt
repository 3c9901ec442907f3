-- ===== src/Frame/Float.antt =====
-- The float of the code, IEEE 754 binary32: a finite value is a whole number of the least unit,
-- 2 ^ -149, with 24 binary digits in front of zeros at most. A result is rounded to the nearest such
-- number, and to the even one of two as near. Infinities and NaN do not occur.
use mahjong_server.Common.{
  ℕ, zero, suc, ◌+◌, ◌*◌, ◌^◌, ◌/◌, ◌%◌, Bool, true, false, ltb, leb, if◌then◌else◌,
}
use mahjong_server.Common.Int.{ℤ, pos, negsuc, ◌-ℤ◌}

abbrev pub Float : Type 0
Float = ℤ

-- The least count of binary digits after `k` that have to go, so that 24 are left; 253 is the most
-- that a float has.
unfoldable pub digits_over : ℕ → ℕ → ℕ → ℕ
digits_over zero k n = k
digits_over (suc fuel) k n = elim (ltb n (2 ^ 24 * 2 ^ k)) [
  | true ↦ k
  | false ↦ digits_over fuel (suc k) n
]

-- The number of units of `2 ^ k`, where `r` of them are left over behind `q` whole ones.
abbrev pub nearest : ℕ → ℕ → ℕ → ℕ
nearest unit q r = if ltb (2 * r) unit then q else if ltb unit (2 * r) then suc q else q + q % 2

unfoldable pub rounded : ℕ → ℕ
unfolding digits_over
rounded n = let unit = 2 ^ digits_over 253 0 n in nearest unit (n / unit) (n % unit) * unit

unfoldable pub minus_rounded : ℕ → ℤ
minus_rounded zero = pos zero
minus_rounded (suc n) = negsuc n

unfoldable pub round : ℤ → Float
unfolding rounded minus_rounded
round (pos n) = pos (rounded n)
round (negsuc n) = minus_rounded (rounded (suc n))

-- a - b
unfoldable pub minus : Float → Float → Float
unfolding round
minus a b = round (a -ℤ b)

-- a <= 0.0f
unfoldable pub not_positive : Float → Bool
not_positive (pos zero) = true
not_positive (pos (suc n)) = false
not_positive (negsuc n) = true

-- a >= 1.0f
unfoldable pub at_least_one : Float → Bool
at_least_one (pos n) = leb (2 ^ 149) n
at_least_one (negsuc n) = false
