-- ===== src/Hand/Remove.antt =====
-- Taking tiles out of a grouped hand: what is left of each kind, and that it stays a grouped hand.
use mahjong_server.Common.{
  ℕ, zero, suc, ◌+◌, ◌≤◌, ◌<◌, ◌≡◌, refl, List, [], ◌∷◌, arith, ◌==◌, if◌then◌else◌, Bool-cases,
  inl, inr, All, length,
}
use mahjong_server.Hand.{MahInfo, take_off, all_count, mah_at, amount_at}
use mahjong_server.Hand.Group.{tally, IsGroup, IsGroup-mono}

-- No info is of a flower tile.
abbrev pub IsStandard : List MahInfo → Type 0
IsStandard = All (λ a. a.mah < 34)

pub tally-take_off :
    (y n i : ℕ) (g : List MahInfo)
    → i < length g
    → n ≤ amount_at g i
    → tally y (take_off n i g) + (if mah_at g i == y then n else 0) ≡ tally y g
unfolding take_off
tally-take_off y n i [] h k = absurd (omega arith)
tally-take_off y n zero (a ∷ g) h k = ground arith
tally-take_off y n (suc i) (a ∷ g) h k = ground (arith, tally-take_off y n i g)

pub all_count-take_off :
    (n i : ℕ) (g : List MahInfo)
    → i < length g
    → n ≤ amount_at g i
    → all_count (take_off n i g) + n ≡ all_count g
unfolding take_off all_count
all_count-take_off n i [] h k = absurd (omega arith)
all_count-take_off n zero (a ∷ g) h k = ground arith
all_count-take_off n (suc i) (a ∷ g) h k = ground (arith, all_count-take_off n i g)

pub take_off-IsGroup : (b n i : ℕ) (g : List MahInfo) → IsGroup b g → IsGroup b (take_off n i g)
unfolding take_off
take_off-IsGroup b n i [] v = tt
take_off-IsGroup b n zero (a ∷ g) v = ground (arith, IsGroup-mono b (a.mah + 1) g)
take_off-IsGroup b n (suc i) (a ∷ g) v = (v.0, v.1, take_off-IsGroup (a.mah + 1) n i g v.2)

pub take_off-IsStandard : (n i : ℕ) (g : List MahInfo) → IsStandard g → IsStandard (take_off n i g)
unfolding take_off
take_off-IsStandard n i [] v = tt
take_off-IsStandard n zero (a ∷ g) v = ground arith
take_off-IsStandard n (suc i) (a ∷ g) v = (v.0, take_off-IsStandard n i g v.1)

-- An info in front of the one that is changed stays where it is.
pub take_off_front :
    (n i j : ℕ) (g : List MahInfo)
    → j < i
    → i < length g
    → (mah_at (take_off n i g) j ≡ mah_at g j)
      × (amount_at (take_off n i g) j ≡ amount_at g j)
      × (j < length (take_off n i g))
unfolding take_off
take_off_front n i j [] h k = absurd (omega arith)
take_off_front n zero j (a ∷ g) h k = absurd (omega arith)
take_off_front n (suc i) zero (a ∷ g) h k = (refl, refl, omega arith)
take_off_front n (suc i) (suc j) (a ∷ g) h k =
    let (m, c, l) = take_off_front n i j g (omega arith) (omega arith) in (m, c, omega arith)

pub amount_at-pos : (b i : ℕ) (g : List MahInfo) → IsGroup b g → i < length g → 0 < amount_at g i
amount_at-pos b i [] v h = absurd (omega arith)
amount_at-pos b zero (a ∷ g) v h = v.1
amount_at-pos b (suc i) (a ∷ g) v h = amount_at-pos (a.mah + 1) i g v.2 (omega arith)

pub mah_at-lt : (i : ℕ) (g : List MahInfo) → IsStandard g → i < length g → mah_at g i < 34
mah_at-lt i [] v h = absurd (omega arith)
mah_at-lt zero (a ∷ g) v h = v.0
mah_at-lt (suc i) (a ∷ g) v h = mah_at-lt i g v.1 (omega arith)

pub amount_at-out : (i : ℕ) (g : List MahInfo) → 0 < amount_at g i → i < length g
amount_at-out i [] h = absurd (omega arith)
amount_at-out zero (a ∷ g) h = omega arith
amount_at-out (suc i) (a ∷ g) h = omega (arith, amount_at-out i g h)

-- Below the first kind of a group nothing is counted.
pub tally-below : (x b : ℕ) (g : List MahInfo) → x < b → IsGroup b g → tally x g ≡ 0
tally-below x b [] h v = refl
tally-below x b (a ∷ g) h v = ground (arith, tally-below x (a.mah + 1) g)

-- A kind that is counted stands at some index, with all of its tiles.
pub index_of :
    (x b : ℕ) (g : List MahInfo)
    → IsGroup b g
    → 0 < tally x g
    → (i : ℕ) × (i < length g) × (mah_at g i ≡ x) × (amount_at g i ≡ tally x g)
index_of x b [] v h = absurd (omega arith)
index_of x b (a ∷ g) v h = elim (Bool-cases (a.mah == x)) [
  | inl e ↦ (0, omega arith, ground arith, ground (arith, tally-below x (a.mah + 1) g))
  | inr e ↦
      let (i, l, m, c) = index_of x (a.mah + 1) g v.2 (ground arith) in
      (suc i, omega arith, m, ground arith)
]
