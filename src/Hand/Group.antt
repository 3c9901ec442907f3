-- ===== src/Hand/Group.antt =====
-- `toMahjongGroup` keeps every tile, in the order of the tiles, each kind once with its number.
use mahjong_server.Common.{
  ℕ, suc, ◌+◌, ◌≤◌, ◌<◌, ◌≡◌, List, [], ◌∷◌, arith, ◌==◌, if◌then◌else◌, count, length,
}
use mahjong_server.Hand.{MahInfo, add_to_group, group_onto, to_mahjong_group, all_count}

-- How many tiles of the kind `x` a grouped hand holds.
abbrev pub tally : ℕ → List MahInfo → ℕ
tally x [] = 0
tally x (a ∷ g) = (if a.mah == x then a.amount else 0) + tally x g

-- Kinds rise strictly from `b` on, and none is empty.
abbrev pub IsGroup : ℕ → List MahInfo → Type 0
IsGroup b [] = Unit {0}
IsGroup b (a ∷ g) = (b ≤ a.mah) × (0 < a.amount) × IsGroup (a.mah + 1) g

pub IsGroup-mono : (b c : ℕ) (g : List MahInfo) → b ≤ c → IsGroup c g → IsGroup b g
IsGroup-mono b c [] h v = tt
IsGroup-mono b c (a ∷ g) h v = (omega arith, v.1, v.2)

pub tally-add_to_group :
    (y x : ℕ) (g : List MahInfo)
    → tally y (add_to_group x g) ≡ (if x == y then 1 else 0) + tally y g
unfolding add_to_group
tally-add_to_group y x [] = ground arith
tally-add_to_group y x (a ∷ g) = ground (arith, tally-add_to_group y x g)

add_to_group-IsGroup :
    (b x : ℕ) (g : List MahInfo) → b ≤ x → IsGroup b g → IsGroup b (add_to_group x g)
unfolding add_to_group
add_to_group-IsGroup b x [] h v = (h, omega arith, tt)
add_to_group-IsGroup b x (a ∷ g) h v = ground (arith, add_to_group-IsGroup (a.mah + 1) x g)

all_count-add_to_group :
    (x : ℕ) (g : List MahInfo) → all_count (add_to_group x g) ≡ suc (all_count g)
unfolding all_count add_to_group
all_count-add_to_group x [] = ground arith
all_count-add_to_group x (a ∷ g) = ground (arith, all_count-add_to_group x g)

tally-group_onto :
    (y : ℕ) (g : List MahInfo) (hand : List ℕ)
    → tally y (group_onto g hand) ≡ tally y g + count y hand
unfolding group_onto
tally-group_onto y g [] = omega arith
tally-group_onto y g (x ∷ xs) =
    omega (arith, tally-group_onto y (add_to_group x g) xs, tally-add_to_group y x g)

group_onto-IsGroup :
    (g : List MahInfo) (hand : List ℕ) → IsGroup 0 g → IsGroup 0 (group_onto g hand)
unfolding group_onto
group_onto-IsGroup g [] v = v
group_onto-IsGroup g (x ∷ xs) v =
    group_onto-IsGroup (add_to_group x g) xs (add_to_group-IsGroup 0 x g (omega arith) v)

all_count-group_onto :
    (g : List MahInfo) (hand : List ℕ) → all_count (group_onto g hand) ≡ all_count g + length hand
unfolding group_onto
all_count-group_onto g [] = omega arith
all_count-group_onto g (x ∷ xs) =
    omega (arith, all_count-group_onto (add_to_group x g) xs, all_count-add_to_group x g)

pub tally-to_mahjong_group :
    (y : ℕ) (hand : List ℕ) → tally y (to_mahjong_group hand) ≡ count y hand
unfolding to_mahjong_group
tally-to_mahjong_group y hand = omega (arith, tally-group_onto y [] hand)

pub to_mahjong_group-IsGroup : (hand : List ℕ) → IsGroup 0 (to_mahjong_group hand)
unfolding to_mahjong_group
to_mahjong_group-IsGroup hand = group_onto-IsGroup [] hand tt

pub all_count-to_mahjong_group : (hand : List ℕ) → all_count (to_mahjong_group hand) ≡ length hand
unfolding to_mahjong_group all_count
all_count-to_mahjong_group hand = omega (arith, all_count-group_onto [] hand)

-- Grouping keeps every tile: the info of a kind holds the number of its tiles in the hand, the kinds
-- rise strictly with no empty one, and the amounts add up to the length of the hand.
pub to_mahjong_group_lem :
    (hand : List ℕ)
    → ((x : ℕ) → tally x (to_mahjong_group hand) ≡ count x hand)
      × IsGroup 0 (to_mahjong_group hand)
      × (all_count (to_mahjong_group hand) ≡ length hand)
to_mahjong_group_lem hand = (
  λ x. tally-to_mahjong_group x hand,
  to_mahjong_group-IsGroup hand,
  all_count-to_mahjong_group hand,
)
