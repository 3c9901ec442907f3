-- ===== src/Frame/Crc/Bits.antt =====
-- Laws of exclusive or, and the division of one bit after the other that the checksum stands for.
use mahjong_server.Common.{
  ℕ, zero, suc, ◌+◌, ◌*◌, ◌/◌, ◌%◌, ◌^◌, ◌<◌, ◌≡◌, refl, subst, ap, ap₂, sym, ◌∙◌, Bool, true,
  false, ◌==◌, if◌then◌else◌, arith,
}
use mahjong_server.Frame.Crc.{xor_bits}

half_lt : (n a : ℕ) → a < 2 ^ suc n → a / 2 < 2 ^ n
half_lt n a h = grind arith

pub xor_bits-none : (n a b : ℕ) → a < 2 ^ n → b ≡ 0 → xor_bits n a b ≡ a
unfolding xor_bits
xor_bits-none zero a b h e = omega arith
xor_bits-none (suc n) a b h e =
    omega (arith, xor_bits-none n (a / 2) (b / 2) (half_lt n a h) (omega arith))

pub xor_bits-half : (n a b : ℕ) → xor_bits (suc n) a b / 2 ≡ xor_bits n (a / 2) (b / 2)
unfolding xor_bits
xor_bits-half n a b = omega arith

pub xor_bits-odd : (n a b : ℕ) → xor_bits (suc n) a b % 2 ≡ (a % 2 + b % 2) % 2
unfolding xor_bits
xor_bits-odd n a b = omega arith

pub xor_bits_assoc : (n a b c : ℕ) → xor_bits n (xor_bits n a b) c ≡ xor_bits n a (xor_bits n b c)
unfolding xor_bits
xor_bits_assoc zero a b c = refl
xor_bits_assoc (suc n) a b c =
    let x = xor_bits n (a / 2) (b / 2) in
    let y = xor_bits n (b / 2) (c / 2) in
    let e : ((a % 2 + b % 2) % 2 + 2 * x) / 2 ≡ x = omega arith in
    let f : ((b % 2 + c % 2) % 2 + 2 * y) / 2 ≡ y = omega arith in
    ap₂ (λ i j. i + 2 * j) (omega arith)
      (ap (λ k. xor_bits n k (c / 2)) e
        ∙ xor_bits_assoc n (a / 2) (b / 2) (c / 2)
        ∙ ap (xor_bits n (a / 2)) (sym f))

-- One bit more makes no difference to numbers that do not have it.
pub xor_bits_wider : (n a b : ℕ) → a < 2 ^ n → b < 2 ^ n → xor_bits (suc n) a b ≡ xor_bits n a b
unfolding xor_bits
xor_bits_wider zero a b h k = omega arith
xor_bits_wider (suc n) a b h k =
    ap (λ x. (a % 2 + b % 2) % 2 + 2 * x)
      (xor_bits_wider n (a / 2) (b / 2) (half_lt n a h) (half_lt n b k))

pub xor_bits-lt : (n a b : ℕ) → xor_bits n a b < 2 ^ n
unfolding xor_bits
xor_bits-lt zero a b = omega arith
xor_bits-lt (suc n) a b = grind (arith, xor_bits-lt n (a / 2) (b / 2))

double_power : (k h x : ℕ) → 2 ^ suc k * h ≡ x → 2 * (2 ^ k * h) ≡ x
double_power k h x e =
    let q : 2 ^ suc k * h ≡ 2 * 2 ^ k * h = ap (λ p. p * h) (omega arith) in
    let r : 2 * 2 ^ k * h ≡ 2 * (2 ^ k * h) = grind arith in sym r ∙ sym q ∙ e

-- High bits and low bits put together.
pub xor_bits_sum :
    (k m h l n x : ℕ) → k + m ≡ n → 2 ^ k * h ≡ x → h < 2 ^ m → l < 2 ^ k → xor_bits n x l ≡ x + l
unfolding xor_bits
xor_bits_sum zero m h l n x e f hh hl =
    let same : h ≡ x = omega arith in
    let small : x < 2 ^ n =
      subst (λ y. y < 2 ^ n) same (subst (λ j. h < 2 ^ j) {x = m} {y = n} (omega arith) hh) in
    xor_bits-none n x l small (omega arith) ∙ omega arith
xor_bits_sum (suc k) m h l zero x e f hh hl = absurd (omega arith)
xor_bits_sum (suc k) m h l (suc n) x e f hh hl =
    let d = double_power k h x f in
    let rest =
      xor_bits_sum k m h (l / 2) n (x / 2) (omega arith) (omega arith) hh (half_lt k l hl) in
    omega arith

-- One bit of the division by the polynomial, and some of them.
abbrev pub polynomial : ℕ
polynomial = 0xa001

unfoldable pub crc_step : ℕ → ℕ
unfolding xor_bits
crc_step c = if c % 2 == 1 then xor_bits 16 (c / 2) polynomial else c / 2

abbrev pub crc_steps : ℕ → ℕ → ℕ
crc_steps zero c = c
crc_steps (suc n) c = crc_steps n (crc_step c)

-- High bits stay out of a step as long as they do not reach the lowest bit.
crc_step-xor_bits :
    (a y : ℕ)
    → a < 2 ^ 15
    → y < 2 ^ 16
    → crc_step (xor_bits 16 (2 * a) y) ≡ xor_bits 16 a (crc_step y)
unfolding crc_step
crc_step-xor_bits a y ha hy =
    let c = xor_bits 16 (2 * a) y in
    let low : c % 2 ≡ y % 2 = omega (arith, xor_bits-odd 15 (2 * a) y) in
    let half : c / 2 ≡ xor_bits 16 a (y / 2) =
      xor_bits-half 15 (2 * a) y
      ∙ ap (λ x. xor_bits 15 x (y / 2)) {x = 2 * a / 2} {y = a} (omega arith)
      ∙ sym (xor_bits_wider 15 a (y / 2) ha (omega arith)) in
    ap₂ (λ b x. if b == 1 then xor_bits 16 x polynomial else x) low half ∙ by_parity (y % 2 == 1)
  where
    by_parity :
        (b : Bool)
        → (if b then xor_bits 16 (xor_bits 16 a (y / 2)) polynomial else xor_bits 16 a (y / 2))
          ≡ xor_bits 16 a (if b then xor_bits 16 (y / 2) polynomial else y / 2)
    by_parity true = xor_bits_assoc 16 a (y / 2) polynomial
    by_parity false = refl

crc_step-lt : (y : ℕ) → y < 2 ^ 16 → crc_step y < 2 ^ 16
unfolding crc_step
crc_step-lt y h = ground (arith, xor_bits-lt 16 (y / 2) polynomial)

pub crc_steps-lt : (n y : ℕ) → y < 2 ^ 16 → crc_steps n y < 2 ^ 16
crc_steps-lt zero y h = h
crc_steps-lt (suc n) y h = crc_steps-lt n (crc_step y) (crc_step-lt y h)

pub crc_steps-xor_bits :
    (k h x y : ℕ)
    → x < 2 ^ 16
    → 2 ^ k * h ≡ x
    → y < 2 ^ 16
    → crc_steps k (xor_bits 16 x y) ≡ xor_bits 16 h (crc_steps k y)
crc_steps-xor_bits zero h x y hx e hy = ap (λ i. xor_bits 16 i y) (omega arith)
crc_steps-xor_bits (suc k) h x y hx e hy =
    let d = double_power k h x e in
    ap (λ i. crc_steps k (crc_step (xor_bits 16 i y))) {x = x} {y = 2 * (x / 2)} (omega arith)
    ∙ ap (crc_steps k) (crc_step-xor_bits (x / 2) y (omega arith) hy)
    ∙ crc_steps-xor_bits k h (x / 2) (crc_step y) (omega arith) (omega arith) (crc_step-lt y hy)
