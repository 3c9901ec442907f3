-- ===== src/Player/Tiles.antt =====
-- What the moves of a player do to the tiles of its hand.
use mahjong_server.Common.{
  ◌∙◌, count-append, ℕ, zero, suc, ◌+◌, ◌≤◌, ◌<◌, ◌≡◌, ◌≢◌, refl, ap, Bool, true, false, List, [],
  ◌∷◌, ◌++◌, Option, none, some, ◌==◌, if◌then◌else◌, arith, count, get_elem?, erase_idx, All,
  length, ==-false,
}
use mahjong_server.Tile.{ActionType, gang, peng, PengGangInfo}
use mahjong_server.Hand.Meld.{
  IsSorted, gang_mahjong, gang_mahjong_lem, gang_mahjong-drawn, peng_mahjong_lem,
}
use mahjong_server.Player.{
  CharacterData, insert_sorted, sort, is_peng_of, peng_index_from, has_peng, make_gang, add_gang,
  erase_first, gang_over, take_own, player_gang, player_peng,
}

count-insert_sorted : (x y : ℕ) (xs : List ℕ) → count x (insert_sorted y xs) ≡ count x (y ∷ xs)
unfolding insert_sorted
count-insert_sorted x y [] = refl
count-insert_sorted x y (z ∷ xs) = ground (arith, count-insert_sorted x y xs)

pub count-sort : (x : ℕ) (xs : List ℕ) → count x (sort xs) ≡ count x xs
unfolding sort
count-sort x [] = refl
count-sort x (y ∷ xs) = omega (arith, count-insert_sorted x y (sort xs), count-sort x xs)

insert_sorted-IsSorted :
    (b x : ℕ) (xs : List ℕ) → b ≤ x → IsSorted b xs → IsSorted b (insert_sorted x xs)
unfolding insert_sorted
insert_sorted-IsSorted b x [] h s = (h, tt)
insert_sorted-IsSorted b x (y ∷ xs) h s = ground (arith, insert_sorted-IsSorted y x xs)

pub sort-IsSorted : (xs : List ℕ) → IsSorted 0 (sort xs)
unfolding sort
sort-IsSorted [] = tt
sort-IsSorted (x ∷ xs) = insert_sorted-IsSorted 0 x (sort xs) (omega arith) (sort-IsSorted xs)

pub count-erase_idx :
    (x i mah : ℕ) (l : List ℕ)
    → get_elem? l i ≡ some mah
    → (if mah == x then 1 else 0) + count x (erase_idx l i) ≡ count x l
count-erase_idx x i mah [] h = absurd (cc)
count-erase_idx x zero mah (y ∷ l) h = ground arith
count-erase_idx x (suc i) mah (y ∷ l) h = omega (arith, count-erase_idx x i mah l h)

count-erase_first :
    (x mah : ℕ) (l : List ℕ)
    → 0 < count mah l
    → count x (erase_first mah l) + (if mah == x then 1 else 0) ≡ count x l
unfolding erase_first
count-erase_first x mah [] h = absurd (omega arith)
count-erase_first x mah (y ∷ l) h = ground (arith, count-erase_first x mah l)

-- The hand gives up `n` tiles of a kind and no other.
abbrev pub GivesUp : ℕ → ℕ → CharacterData → CharacterData → Type 0
GivesUp n mah c d = (x : ℕ) → count x d.hand_in + (if mah == x then n else 0) ≡ count x c.hand_in

-- A peng with a sorted hand that holds two of the tile gives up exactly two, keeps the hand sorted
-- and puts one peng of the tile behind the melds.
pub player_peng_lem :
    (mah : ℕ) (c : CharacterData)
    → IsSorted 0 c.hand_in
    → 2 ≤ count mah c.hand_in
    → GivesUp 2 mah c (player_peng mah c)
      × IsSorted 0 (player_peng mah c).hand_in
      × ((player_peng mah c).peng_gang_list
          ≡ c.peng_gang_list ++ (record { type = peng; mahjong = mah }) ∷ [])
unfolding player_peng
player_peng_lem mah c s h =
    let v = peng_mahjong_lem 0 mah c.hand_in s h in (v.counts, v.sorted, refl)

player_gang_case :
    (mah : ℕ) (own : Bool) (c : CharacterData) (o : Option ℕ)
    → has_peng mah c.peng_gang_list ≡ o
    → player_gang mah own c ≡ take_own mah own (gang_over o mah c)
unfolding player_gang
player_gang_case mah own c o e = ap (λ o'. take_own mah own (gang_over o' mah c)) e

-- A gang of a tile that another player dropped, with no earlier peng of it and a sorted hand that
-- holds three, gives up the three and puts a gang behind the melds.
pub player_gang_dropped :
    (mah : ℕ) (c : CharacterData)
    → IsSorted 0 c.hand_in
    → has_peng mah c.peng_gang_list ≡ none
    → 3 ≤ count mah c.hand_in
    → GivesUp 3 mah c (player_gang mah false c)
      × ((player_gang mah false c).peng_gang_list
          ≡ c.peng_gang_list ++ (record { type = gang; mahjong = mah }) ∷ [])
unfolding add_gang
player_gang_dropped mah c s e h =
    let v = gang_mahjong_lem 0 mah c.hand_in s h in
    rw (player_gang_case mah false c none e) (v.counts, refl)

-- A gang of four in the own hand, the last of whose tiles has been drawn and the others are sorted,
-- with no earlier peng of the tile, gives up all four and puts a gang behind the melds.
pub player_gang_own :
    (mah drawn : ℕ) (hand : List ℕ) (c : CharacterData)
    → c.hand_in ≡ hand ++ drawn ∷ []
    → IsSorted 0 hand
    → has_peng mah c.peng_gang_list ≡ none
    → count mah c.hand_in ≡ 4
    → GivesUp 4 mah c (player_gang mah true c)
      × ((player_gang mah true c).peng_gang_list
          ≡ c.peng_gang_list ++ (record { type = gang; mahjong = mah }) ∷ [])
unfolding add_gang
player_gang_own mah drawn hand c f s e h =
    let three : 3 ≤ count mah hand =
      ground (arith, ap (count mah) f, count-append mah hand (drawn ∷ [])) in
    let v = gang_mahjong_lem 0 mah hand s three in
    let g : gang_mahjong c.hand_in mah ≡ gang_mahjong hand mah ++ drawn ∷ [] =
      ap (λ l. gang_mahjong l mah) f ∙ gang_mahjong-drawn 0 mah drawn hand s three in
    let left = λ (x : ℕ). ap (count x) g ∙ count-append x (gang_mahjong hand mah) (drawn ∷ []) in
    let whole = λ (x : ℕ). ap (count x) f ∙ count-append x hand (drawn ∷ []) in
    let one = λ (x : ℕ).
      count-erase_first x mah (gang_mahjong c.hand_in mah)
        (ground (arith, v.counts mah, left mah, whole mah)) in
    rw (player_gang_case mah true c none e)
      (λ x. ground (arith, v.counts x, one x, left x, whole x), refl)

-- No meld is a peng of the tile.
abbrev pub NoPeng : ℕ → List PengGangInfo → Type 0
NoPeng mah = All (λ i. (i.type ≡ peng) → i.mahjong ≢ mah)

is_peng_of-peng : (mah : ℕ) → is_peng_of mah (record { type = peng; mahjong = mah }) ≡ true
is_peng_of-peng mah = ground arith

is_peng_of-other :
    (mah : ℕ) (t : ActionType) (x : ℕ)
    → ((t ≡ peng) → x ≢ mah)
    → is_peng_of mah (record { type = t; mahjong = x }) ≡ false
is_peng_of-other mah peng x h = rw (==-false x mah (h refl)) refl
is_peng_of-other mah t x h = ground arith

peng_index_from-front :
    (i mah : ℕ) (before after : List PengGangInfo)
    → NoPeng mah before
    → peng_index_from i mah (before ++ (record { type = peng; mahjong = mah }) ∷ after)
      ≡ some (i + length before)
unfolding peng_index_from
peng_index_from-front i mah [] after h = ground (arith, is_peng_of-peng mah)
peng_index_from-front i mah (x ∷ before) after h =
    rw (is_peng_of-other mah x.type x.mahjong h.0)
      (peng_index_from-front (suc i) mah before after h.1 ∙ ap some (omega arith))

make_gang-front :
    (mah : ℕ) (before after : List PengGangInfo)
    → make_gang (length before) (before ++ (record { type = peng; mahjong = mah }) ∷ after)
      ≡ before ++ (record { type = gang; mahjong = mah }) ∷ after
unfolding make_gang
make_gang-front mah [] after = refl
make_gang-front mah (x ∷ before) after = ap (◌∷◌ x) (make_gang-front mah before after)

-- A gang of a tile that the player holds, where the melds have a peng of the tile and none of it in
-- front, gives up one such tile, and that peng is a gang of the tile then. The other melds stay as
-- they are and where they are.
pub player_gang_over :
    (mah : ℕ) (before after : List PengGangInfo) (c : CharacterData)
    → c.peng_gang_list ≡ before ++ (record { type = peng; mahjong = mah }) ∷ after
    → NoPeng mah before
    → 0 < count mah c.hand_in
    → GivesUp 1 mah c (player_gang mah true c)
      × ((player_gang mah true c).peng_gang_list
          ≡ before ++ (record { type = gang; mahjong = mah }) ∷ after)
unfolding has_peng
player_gang_over mah before after c e none_before h =
    let melds = before ++ (record { type = peng; mahjong = mah }) ∷ after in
    let found : has_peng mah c.peng_gang_list ≡ some (length before) =
      ap (peng_index_from 0 mah) e
      ∙ peng_index_from-front 0 mah before after none_before
      ∙ ap some {x = 0 + length before} (omega arith) in
    rw (player_gang_case mah true c (some (length before)) found) (
      λ x. count-erase_first x mah c.hand_in h,
      ap (make_gang (length before)) e ∙ make_gang-front mah before after,
    )
