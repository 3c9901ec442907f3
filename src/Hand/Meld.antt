-- ===== src/Hand/Meld.antt =====
-- Claiming a tile: when a hand may take a dropped tile for a triplet or four of a kind, and what is
-- left of it (ServerUtility::canPeng, canGang, pengMahjong, gangMahjong).
use mahjong_server.Common.{
  ℕ, ◌+◌, ◌-◌, ◌≤◌, ◌<◌, ◌≡◌, refl, sym, subst, ◌∙◌, Bool, true, false, ◌&&◌, List, [], ◌∷◌, ◌++◌,
  ap, arith, ◌==◌, leb, if◌then◌else◌, count, Bool-cases, inl, inr, ◌≢◌, ◌⊎◌,
}
use mahjong_server.Tile.{max_single_count, m_max}
use mahjong_server.Hand.{MahInfo, to_mahjong_group}
use mahjong_server.Hand.Group.{tally, IsGroup, tally-to_mahjong_group, to_mahjong_group-IsGroup}
use mahjong_server.Hand.Remove.{tally-below}

-- The loops over the grouped hand.
pub find_peng : List MahInfo → ℕ → Bool
find_peng [] mah = false
find_peng (a ∷ g) mah = if leb 2 a.amount && a.mah == mah then true else find_peng g mah

pub find_gang : List MahInfo → ℕ → Bool
find_gang [] mah = false
find_gang (a ∷ g) mah =
    if a.amount == max_single_count - 1 && a.mah == mah then true else find_gang g mah

pub find_four : List MahInfo → ℕ
find_four [] = m_max
find_four (a ∷ g) = if a.amount == max_single_count then a.mah else find_four g

unfoldable pub can_peng : List ℕ → ℕ → Bool
unfolding find_peng
can_peng hand mah = find_peng (to_mahjong_group hand) mah

unfoldable pub can_gang : List ℕ → ℕ → Bool
unfolding find_gang
can_gang hand mah = find_gang (to_mahjong_group hand) mah

-- canGang(handInMah): the tile of which the hand holds four, or M_MAX.
unfoldable pub can_gang_own : List ℕ → ℕ
unfolding find_four
can_gang_own hand = find_four (to_mahjong_group hand)

-- pengMahjong: the first two equal neighbours are erased.
unfoldable pub peng_mahjong : List ℕ → ℕ → List ℕ
peng_mahjong [] mah = []
peng_mahjong (a ∷ []) mah = a ∷ []
peng_mahjong (a ∷ b ∷ hand) mah =
    if a == mah && b == mah then hand else a ∷ peng_mahjong (b ∷ hand) mah

-- gangMahjong: the first three equal neighbours are erased.
unfoldable pub gang_mahjong : List ℕ → ℕ → List ℕ
gang_mahjong [] mah = []
gang_mahjong (a ∷ []) mah = a ∷ []
gang_mahjong (a ∷ b ∷ []) mah = a ∷ b ∷ []
gang_mahjong (a ∷ b ∷ c ∷ hand) mah =
    if a == mah && b == mah && c == mah then hand else a ∷ gang_mahjong (b ∷ c ∷ hand) mah

-- The tiles rise from `b` on; equal tiles are neighbours.
abbrev pub IsSorted : ℕ → List ℕ → Type 0
IsSorted b [] = Unit {0}
IsSorted b (x ∷ xs) = (b ≤ x) × IsSorted x xs

find_peng_lem : (b mah : ℕ) (g : List MahInfo) → IsGroup b g → find_peng g mah ≡ leb 2 (tally mah g)
unfolding find_peng
find_peng_lem b mah [] v = refl
find_peng_lem b mah (a ∷ g) v =
    ground (arith, find_peng_lem (a.mah + 1) mah g v.2, tally-below mah (a.mah + 1) g)

find_gang_lem : (b mah : ℕ) (g : List MahInfo) → IsGroup b g → find_gang g mah ≡ (tally mah g == 3)
unfolding find_gang
find_gang_lem b mah [] v = refl
find_gang_lem b mah (a ∷ g) v =
    ground (arith, find_gang_lem (a.mah + 1) mah g v.2, tally-below mah (a.mah + 1) g)

-- A hand can take a dropped tile for a triplet exactly if it holds at least two of its kind, and for
-- four of a kind exactly if it holds three.
pub claim_lem :
    (hand : List ℕ) (mah : ℕ)
    → (can_peng hand mah ≡ leb 2 (count mah hand)) × (can_gang hand mah ≡ (count mah hand == 3))
unfolding can_peng can_gang
claim_lem hand mah = (
  ground (
    arith,
    find_peng_lem 0 mah (to_mahjong_group hand) (to_mahjong_group-IsGroup hand),
    tally-to_mahjong_group mah hand,
  ),
  ground (
    arith,
    find_gang_lem 0 mah (to_mahjong_group hand) (to_mahjong_group-IsGroup hand),
    tally-to_mahjong_group mah hand,
  ),
)

IsSorted-mono : (b c : ℕ) (xs : List ℕ) → b ≤ c → IsSorted c xs → IsSorted b xs
IsSorted-mono b c [] h s = tt
IsSorted-mono b c (x ∷ xs) h s = (omega arith, s.1)

-- Nothing below the least tile is counted.
pub count-below : (x b : ℕ) (xs : List ℕ) → x < b → IsSorted b xs → count x xs ≡ 0
count-below x b [] h s = refl
count-below x b (y ∷ ys) h s = ground (arith, count-below x y ys)

-- What is left when `n` tiles of a kind are taken out of a sorted hand.
pub record Leaves (n b mah : ℕ) (hand left : List ℕ) : Type 0 where
  pub counts : (x : ℕ) → count x left + (if mah == x then n else 0) ≡ count x hand
  pub sorted : IsSorted b left

Leaves-cons :
    (n b mah a : ℕ) (hand left : List ℕ)
    → b ≤ a
    → Leaves n a mah hand left
    → Leaves n b mah (a ∷ hand) (a ∷ left)
Leaves-cons n b mah a hand left h v = record {
  counts = λ x. omega (arith, v.counts x);
  sorted = (h, v.sorted);
}

-- On a sorted hand that holds two tiles of the kind, `pengMahjong` takes exactly two of them away,
-- leaves every other kind as it was, and leaves the hand sorted.
pub peng_mahjong_lem :
    (b mah : ℕ) (hand : List ℕ)
    → IsSorted b hand
    → 2 ≤ count mah hand
    → Leaves 2 b mah hand (peng_mahjong hand mah)
unfolding peng_mahjong
peng_mahjong_lem b mah [] s h = absurd (omega arith)
peng_mahjong_lem b mah (a ∷ []) s h = absurd (ground arith)
peng_mahjong_lem b mah (a ∷ c ∷ hand) s h = elim (Bool-cases (a == mah && c == mah)) [
  | inl e ↦
      rw e (record {
        counts = λ x. ground arith;
        sorted = IsSorted-mono b c hand (ground arith) s.1.1;
      })
  | inr e ↦ rw e (
      Leaves-cons 2 b mah a (c ∷ hand) (peng_mahjong (c ∷ hand) mah) s.0
        (peng_mahjong_lem a mah (c ∷ hand) s.1 (ground (arith, count-below mah c hand))))
]

-- On a sorted hand that holds three tiles of the kind, `gangMahjong` takes exactly three of them
-- away, leaves every other kind as it was, and leaves the hand sorted.
pub gang_mahjong_lem :
    (b mah : ℕ) (hand : List ℕ)
    → IsSorted b hand
    → 3 ≤ count mah hand
    → Leaves 3 b mah hand (gang_mahjong hand mah)
unfolding gang_mahjong
gang_mahjong_lem b mah [] s h = absurd (omega arith)
gang_mahjong_lem b mah (a ∷ []) s h = absurd (ground arith)
gang_mahjong_lem b mah (a ∷ c ∷ []) s h = absurd (ground arith)
gang_mahjong_lem b mah (a ∷ c ∷ d ∷ hand) s h =
    elim (Bool-cases (a == mah && c == mah && d == mah)) [
      | inl e ↦ rw e (record {
        counts = λ x. ground arith;
        sorted = IsSorted-mono b d hand (ground arith) s.1.1.1;
      })
      | inr e ↦ rw e (
          Leaves-cons 3 b mah a (c ∷ d ∷ hand) (gang_mahjong (c ∷ d ∷ hand) mah) s.0 (
            gang_mahjong_lem a mah (c ∷ d ∷ hand) s.1
              (ground (arith, count-below mah c (d ∷ hand), count-below mah d hand))))
    ]

-- A drawn tile behind the sorted ones stays where it is.
pub gang_mahjong-drawn :
    (b mah x : ℕ) (hand : List ℕ)
    → IsSorted b hand
    → 3 ≤ count mah hand
    → gang_mahjong (hand ++ x ∷ []) mah ≡ gang_mahjong hand mah ++ x ∷ []
unfolding gang_mahjong
gang_mahjong-drawn b mah x [] s h = absurd (omega arith)
gang_mahjong-drawn b mah x (a ∷ []) s h = absurd (ground arith)
gang_mahjong-drawn b mah x (a ∷ c ∷ []) s h = absurd (ground arith)
gang_mahjong-drawn b mah x (a ∷ c ∷ d ∷ hand) s h =
    elim (Bool-cases (a == mah && c == mah && d == mah)) [
      | inl e ↦ rw e refl
      | inr e ↦ rw e (
          ap (◌∷◌ a) (
            gang_mahjong-drawn a mah x (c ∷ d ∷ hand) s.1
              (ground (arith, count-below mah c (d ∷ hand), count-below mah d hand))))
    ]

find_four_here :
    (a : MahInfo) (g : List MahInfo) → (a.amount == 4) ≡ true → find_four (a ∷ g) ≡ a.mah
unfolding find_four
find_four_here a g e = rw e

find_four_later :
    (a : MahInfo) (g : List MahInfo) → (a.amount == 4) ≡ false → find_four (a ∷ g) ≡ find_four g
unfolding find_four
find_four_later a g e = rw e

find_four_nil : find_four [] ≡ m_max
unfolding find_four
find_four_nil = refl

abbrev Answers : List MahInfo → ℕ → Type 0
Answers g mah = ((mah ≡ m_max) × ((x : ℕ) → tally x g ≢ 4)) ⊎ (tally mah g ≡ 4)

Answers-later :
    (b mah : ℕ) (a : MahInfo) (g : List MahInfo)
    → IsGroup b (a ∷ g)
    → (a.amount == 4) ≡ false
    → Answers g mah
    → Answers (a ∷ g) mah
Answers-later b mah a g v e (inl (f, no_four)) =
    inl (f, λ x h. ground (arith, no_four x, tally-below x (a.mah + 1) g))
Answers-later b mah a g v e (inr f) = inr (ground (arith, tally-below mah (a.mah + 1) g))

find_four_lem : (b : ℕ) (g : List MahInfo) → IsGroup b g → Answers g (find_four g)
find_four_lem b [] v = inl (find_four_nil, λ x e. omega arith)
find_four_lem b (a ∷ g) v = elim (Bool-cases (a.amount == 4)) [
  | inl e ↦
      subst (Answers (a ∷ g)) (sym (find_four_here a g e))
        (inr (ground (arith, tally-below a.mah (a.mah + 1) g)))
  | inr e ↦
      subst (Answers (a ∷ g)) (sym (find_four_later a g e))
        (Answers-later b (find_four g) a g v e (find_four_lem (a.mah + 1) g v.2))
]

-- `canGang` of the own hand names a tile of which the hand holds exactly four; if the hand holds four
-- of nothing, it answers M_MAX.
pub can_gang_own_lem :
    (hand : List ℕ)
    → ((can_gang_own hand ≡ m_max) × ((x : ℕ) → count x hand ≢ 4))
      ⊎ (count (can_gang_own hand) hand ≡ 4)
unfolding can_gang_own
can_gang_own_lem hand =
    elim (find_four_lem 0 (to_mahjong_group hand) (to_mahjong_group-IsGroup hand)) [
      | inl (e, no_four) ↦ inl (e, λ x h. no_four x (tally-to_mahjong_group x hand ∙ h))
      | inr e ↦ inr (sym (tally-to_mahjong_group (find_four (to_mahjong_group hand)) hand) ∙ e)
    ]
