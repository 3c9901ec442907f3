-- ===== src/Hand.antt =====
-- Server/Game/Utility/ServerUtility.cpp: grouping a hand, and the search that decides whether it wins.
-- A txVector is a list; `canHu`'s loop and its recursion are on fuel, which bounds the depth of the
-- recursion by the number of tiles left.
pub mod Group
pub mod Remove
pub mod Search
pub mod Wins
pub mod Decides
pub mod Meld
pub mod Kinds
use mahjong_server.Common.{
  ℕ, zero, suc, ◌+◌, ◌-◌, Bool, true, false, not, ◌&&◌, ◌||◌, List, [], ◌∷◌, ◌++◌, Option, none,
  some, ltb, leb, ◌==◌, if◌then◌else◌, length, get_elem?, erase_idx,
}
use mahjong_server.Tile.{get_hua_se, mh_feng}

pub record MahInfo : Type 0 where
  pub mah : ℕ
  pub amount : ℕ

-- One round of the first loop of `toMahjongGroup`: the map is kept in the order of its keys.
pub add_to_group : ℕ → List MahInfo → List MahInfo
add_to_group x [] = record { mah = x; amount = 1 } ∷ []
add_to_group x (i ∷ g) =
    if i.mah == x
    then record i { amount = i.amount + 1 } ∷ g
    else if ltb x i.mah
    then record { mah = x; amount = 1 } ∷ i ∷ g
    else i ∷ add_to_group x g

pub group_onto : List MahInfo → List ℕ → List MahInfo
group_onto g [] = g
group_onto g (x ∷ xs) = group_onto (add_to_group x g) xs

unfoldable pub to_mahjong_group : List ℕ → List MahInfo
unfolding group_onto add_to_group
to_mahjong_group hand = group_onto [] hand

-- `isShunzi` at the three infos that stand at `startIndex` and behind it.
abbrev pub is_shunzi_of : MahInfo → MahInfo → MahInfo → Bool
is_shunzi_of a b c =
    if get_hua_se a.mah == mh_feng || get_hua_se b.mah == mh_feng || get_hua_se c.mah == mh_feng
    then false
    else if not (get_hua_se a.mah == get_hua_se b.mah) || not (get_hua_se b.mah == get_hua_se c.mah)
    then false
    else if not (a.mah + 1 == b.mah) || not (b.mah + 1 == c.mah)
    then false
    else true

-- Fewer than three infos from `startIndex` on are no run.
abbrev pub is_shunzi_head : MahInfo → List MahInfo → Bool
is_shunzi_head a (b ∷ c ∷ g) = is_shunzi_of a b c
is_shunzi_head a _ = false

pub is_shunzi : List MahInfo → ℕ → Bool
is_shunzi [] i = false
is_shunzi (a ∷ g) zero = is_shunzi_head a g
is_shunzi (a ∷ g) (suc i) = is_shunzi g i

-- Takes `n` off the count at an index, and erases the info when nothing is left.
pub take_off : ℕ → ℕ → List MahInfo → List MahInfo
take_off n i [] = []
take_off n zero (a ∷ g) = if a.amount - n == 0 then g else record a { amount = a.amount - n } ∷ g
take_off n (suc i) (a ∷ g) = a ∷ take_off n i g

-- The three tiles at an index, and the run at an index taken off from its far end.
abbrev pub take_triplet : ℕ → List MahInfo → List MahInfo
take_triplet i g = take_off 3 i g

abbrev pub take_shunzi : ℕ → List MahInfo → List MahInfo
take_shunzi i g = take_off 1 i (take_off 1 (i + 1) (take_off 1 (i + 2) g))

pub all_count : List MahInfo → ℕ
all_count [] = 0
all_count (a ∷ g) = a.amount + all_count g

abbrev pub HuaseList : Type 0
HuaseList = List (ℕ × List ℕ)

abbrev pub has_huase : ℕ → HuaseList → Bool
has_huase h [] = false
has_huase h ((k, tiles) ∷ m) = k == h || has_huase h m

abbrev pub push_huase : ℕ → ℕ → HuaseList → HuaseList
push_huase h x [] = []
push_huase h x ((k, tiles) ∷ m) =
    if k == h then (k, tiles ++ x ∷ []) ∷ m else (k, tiles) ∷ push_huase h x m

-- `getHuaseList`: the result is what its parameter holds at the end. The code takes the map by
-- value, so this is a copy that its caller never sees.
pub get_huase_list : List MahInfo → HuaseList → Bool → HuaseList
get_huase_list [] huase_list include_feng = huase_list
get_huase_list (a ∷ g) huase_list include_feng =
    let huase = get_hua_se a.mah in
    get_huase_list g
      (if not (has_huase huase huase_list)
        then (if include_feng || not (huase == mh_feng)
            then huase_list ++ (huase, a.mah ∷ []) ∷ []
            else huase_list)
        else push_huase huase a.mah huase_list)
      include_feng

-- What the variable that a caller passes by value holds after the call: what it held before.
abbrev pub after_call : HuaseList → HuaseList → HuaseList
after_call caller_copy callee_copy = caller_copy

abbrev pub mah_at : List MahInfo → ℕ → ℕ
mah_at [] i = 0
mah_at (a ∷ g) zero = a.mah
mah_at (a ∷ g) (suc i) = mah_at g i

abbrev pub amount_at : List MahInfo → ℕ → ℕ
amount_at [] i = 0
amount_at (a ∷ g) zero = a.amount
amount_at (a ∷ g) (suc i) = amount_at g i

abbrev pub Devide : Type 0
Devide = List (List ℕ)

-- What follows a successful recursion: the meld is pushed to the divided list.
abbrev pub push_meld : List ℕ → Option Devide → Option Devide → Option Devide
push_meld meld (some d) other = some (d ++ meld ∷ [])
push_meld meld none other = other

-- The `while (true)` of `canHu`, `rounds` being the rounds left and `rec` the recursive call. The
-- divided list is returned only on success: the code pushes to it nowhere else.
pub search_from :
    (List MahInfo → Devide → Option Devide) → ℕ → ℕ → List MahInfo → Devide → Option Devide
search_from rec zero index g d = none
search_from rec (suc rounds) index g d =
    let next = search_from rec rounds (index + 1) g d in
    let run =
      if is_shunzi g index
      then push_meld (mah_at g index ∷ mah_at g (index + 1) ∷ mah_at g (index + 2) ∷ [])
          (rec (take_shunzi index g) d) next
      else next in
    if leb 3 (amount_at g index)
    then push_meld (mah_at g index ∷ mah_at g index ∷ mah_at g index ∷ [])
        (rec (take_triplet index g) d) run
    else run

-- The test of the last two tiles.
pub last_pair : List MahInfo → Devide → Option Devide
last_pair (a ∷ []) d = if a.amount == 2 then some (d ++ (a.mah ∷ a.mah ∷ []) ∷ []) else none
last_pair _ d = none

pub can_hu_within : ℕ → List MahInfo → Devide → Option Devide
can_hu_within zero g d = none
can_hu_within (suc fuel) g d =
    if ltb 2 (length (after_call [] (get_huase_list g [] false)))
    then none
    else if ltb 2 (all_count g)
    then search_from (can_hu_within fuel) (length g) 0 g d
    else last_pair g d

abbrev pub is_some : Option Devide → Bool
is_some none = false
is_some (some d) = true

-- canHu(handInMah): each recursion takes three tiles off, so the fuel is not used up.
pub can_hu : List ℕ → Bool
can_hu hand = let g = to_mahjong_group hand in is_some (can_hu_within (all_count g + 1) g [])

-- canHu(handInMah, mah)
pub can_hu_with : List ℕ → ℕ → Bool
can_hu_with hand mah = can_hu (hand ++ mah ∷ [])
