-- ===== src/Hand/Kinds.antt =====
-- What a winning hand is worth naming: `isQingYiSe` and `generateHuType`.
use mahjong_server.Common.{
  ℕ, ◌≤◌, ◌<◌, ◌≡◌, ◌≢◌, ◌↔◌, refl, ap, ◌∙◌, map, Bool, true, false, not, ◌&&◌, List, [], ◌∷◌, ◌++◌,
  Option, none, some, arith, ◌==◌, leb, if◌then◌else◌, All, Bool-cases, ◌⊎◌, inl, inr, count,
}
use mahjong_server.Tile.{get_hua_se, ActionType, gang, peng, HuType, normal, qingyise, PengGangInfo}
use mahjong_server.Hand.Meld.{IsSorted, Leaves}

-- Each loop of `isQingYiSe`.
pub all_of_suit : ℕ → List ℕ → Bool
all_of_suit huase [] = true
all_of_suit huase (x ∷ xs) = if not (get_hua_se x == huase) then false else all_of_suit huase xs

-- `none` is the read of `handInMah[0]` out of an empty hand.
pub is_qing_yi_se : List ℕ → List ℕ → List ℕ → Option Bool
is_qing_yi_se [] pengs gangs = none
is_qing_yi_se (x ∷ hand) pengs gangs =
    let huase = get_hua_se x in
    some (
      if not (all_of_suit huase (x ∷ hand))
      then false
      else if not (all_of_suit huase pengs)
      then false
      else all_of_suit huase gangs)

-- The loop that puts the dropped tile into the hand: in front of the first tile not below it.
unfoldable pub insert_drop : ℕ → List ℕ → List ℕ
insert_drop drop_mah [] = []
insert_drop drop_mah (x ∷ xs) =
    if leb drop_mah x then drop_mah ∷ x ∷ xs else x ∷ insert_drop drop_mah xs

abbrev pub is_gang : ActionType → Bool
is_gang gang = true
is_gang _ = false

abbrev pub is_peng : ActionType → Bool
is_peng peng = true
is_peng _ = false

-- The loop over the melds on the table. What is a gang goes to the list named pengs, and the other
-- way round, as in the source.
pub collect_pengs : List PengGangInfo → List ℕ
collect_pengs [] = []
collect_pengs (i ∷ is) = if is_gang i.type then i.mahjong ∷ collect_pengs is else collect_pengs is

pub collect_gangs : List PengGangInfo → List ℕ
collect_gangs [] = []
collect_gangs (i ∷ is) =
    if is_gang i.type
    then collect_gangs is
    else if is_peng i.type
    then i.mahjong ∷ collect_gangs is
    else collect_gangs is

abbrev pub hand_in_list : List ℕ → ℕ → Bool → List ℕ
hand_in_list hand drop_mah hand_in_include_drop =
    if not hand_in_include_drop then insert_drop drop_mah hand else hand

abbrev pub hu_list_of : Bool → List HuType
hu_list_of one_suit = if one_suit then qingyise ∷ [] else normal ∷ []

abbrev pub kinds_of : Option Bool → Option (List HuType)
kinds_of none = none
kinds_of (some one_suit) = some (hu_list_of one_suit)

-- `isSelfGet` is a parameter that the source does not read.
unfoldable pub generate_hu_type :
    List ℕ → ℕ → List PengGangInfo → Bool → Bool → Option (List HuType)
unfolding is_qing_yi_se insert_drop collect_pengs collect_gangs all_of_suit
generate_hu_type hand drop_mah gang_peng_list is_self_get hand_in_include_drop = kinds_of (
    is_qing_yi_se (hand_in_list hand drop_mah hand_in_include_drop) (collect_pengs gang_peng_list)
      (collect_gangs gang_peng_list))

-- All tiles are of the suit.
abbrev pub IsOfSuit : ℕ → List ℕ → Type 0
IsOfSuit huase = All (λ x. get_hua_se x ≡ huase)

-- The melds on the table are gangs and pengs.
abbrev pub AreMelds : List PengGangInfo → Type 0
AreMelds = All (λ i. (i.type ≡ gang) ⊎ (i.type ≡ peng))

all_of_suit_iff : (huase : ℕ) (xs : List ℕ) → (all_of_suit huase xs ≡ true) ↔ IsOfSuit huase xs
unfolding all_of_suit
all_of_suit_iff huase [] = (λ _. tt, λ _. refl)
all_of_suit_iff huase (x ∷ xs) =
    let (f, g) = all_of_suit_iff huase xs in (λ h. ground arith, λ h. ground arith)

all_of_suit-append :
    (huase : ℕ) (xs ys : List ℕ)
    → all_of_suit huase (xs ++ ys) ≡ (all_of_suit huase xs && all_of_suit huase ys)
unfolding all_of_suit
all_of_suit-append huase [] ys = refl
all_of_suit-append huase (x ∷ xs) ys = ground (arith, all_of_suit-append huase xs ys)

abbrev pub meld_tiles : List PengGangInfo → List ℕ
meld_tiles = map (λ i. i.mahjong)

-- That gangs and pengs go to each other's lists makes no difference.
all_of_suit-collect :
    (huase : ℕ) (is : List PengGangInfo)
    → AreMelds is
    → (all_of_suit huase (collect_pengs is) && all_of_suit huase (collect_gangs is))
      ≡ all_of_suit huase (meld_tiles is)
unfolding collect_pengs collect_gangs all_of_suit
all_of_suit-collect huase [] m = refl
all_of_suit-collect huase (i ∷ is) m = ground (arith, all_of_suit-collect huase is m.1)

is_qing_yi_se_lem :
    (x : ℕ) (hand : List ℕ) (is : List PengGangInfo)
    → AreMelds is
    → is_qing_yi_se (x ∷ hand) (collect_pengs is) (collect_gangs is)
      ≡ some (all_of_suit (get_hua_se x) ((x ∷ hand) ++ meld_tiles is))
unfolding is_qing_yi_se
is_qing_yi_se_lem x hand is m =
    rw (all_of_suit-append (get_hua_se x) (x ∷ hand) (meld_tiles is))
      (ground (arith, all_of_suit-collect (get_hua_se x) is m))

-- For a hand that is not empty, and melds on the table that are gangs and pengs, `generateHuType`
-- answers the one-suit kind alone if all the tiles of the hand (with the dropped tile where the loop
-- puts it in) and of the melds are of one suit, and the plain kind alone if they are not.
pub generate_hu_type_lem :
    (hand : List ℕ) (drop_mah : ℕ) (is : List PengGangInfo) (self_get include : Bool) (x : ℕ)
    (rest : List ℕ)
    → AreMelds is
    → hand_in_list hand drop_mah include ≡ x ∷ rest
    → ((generate_hu_type hand drop_mah is self_get include ≡ some (qingyise ∷ []))
        × IsOfSuit (get_hua_se x) ((x ∷ rest) ++ meld_tiles is))
      ⊎ ((generate_hu_type hand drop_mah is self_get include ≡ some (normal ∷ []))
          × (¬ IsOfSuit (get_hua_se x) ((x ∷ rest) ++ meld_tiles is)))
unfolding generate_hu_type
generate_hu_type_lem hand drop_mah is self_get include x rest m e =
    let all = (x ∷ rest) ++ meld_tiles is in
    let q =
      ap (λ l. is_qing_yi_se l (collect_pengs is) (collect_gangs is)) e
      ∙ is_qing_yi_se_lem x rest is m in
    elim (Bool-cases (all_of_suit (get_hua_se x) all)) [
      | inl one ↦ inl (ap kinds_of (q ∙ ap some one), (all_of_suit_iff (get_hua_se x) all).0 one)
      | inr many ↦
          inr (ap kinds_of (q ∙ ap some many), λ v. cc ((all_of_suit_iff (get_hua_se x) all).1 v))
    ]

-- In a sorted hand, of tiles not below `b`, and for a dropped tile not below `b`: if some tile of the
-- hand is not below the dropped one, the loop puts exactly one dropped tile in, and the hand stays
-- sorted. If all are below it, the loop leaves the hand as it is. One of both is the case.
pub insert_drop_lem :
    (b drop_mah : ℕ) (hand : List ℕ)
    → IsSorted b hand
    → b ≤ drop_mah
    → ((y : ℕ) × (0 < count y hand)
        × (drop_mah ≤ y)
        × Leaves 1 b drop_mah (insert_drop drop_mah hand) hand
        × IsSorted b (insert_drop drop_mah hand))
      ⊎ (All (λ x. x < drop_mah) hand × (insert_drop drop_mah hand ≡ hand))
unfolding insert_drop
insert_drop_lem b drop_mah [] s h = inr (tt, refl)
insert_drop_lem b drop_mah (x ∷ xs) s h = elim (Bool-cases (leb drop_mah x)) [
  | inl e ↦ inl (
    x,
    ground arith,
    ground arith,
    rw e (record { counts = λ y. ground arith; sorted = s }),
    rw e (h, (ground arith, s.1)),
  )
  | inr e ↦ elim (insert_drop_lem x drop_mah xs s.1 (ground arith)) [
    | inl (y, held, le, v, w) ↦ inl (
      y,
      ground arith,
      le,
      rw e (record { counts = λ z. omega (arith, v.counts z); sorted = s }),
      rw e (s.0, w),
    )
    | inr (v, w) ↦ inr ((ground arith, v), rw e (ap (◌∷◌ x) w))
  ]
]

pub generate_hu_type-total :
    (hand : List ℕ) (mah : ℕ) (melds : List PengGangInfo) (own : Bool)
    → hand ≢ []
    → (l : List HuType) × (generate_hu_type hand mah melds own true ≡ some l)
unfolding generate_hu_type is_qing_yi_se
generate_hu_type-total [] mah melds own h = absurd (h refl)
generate_hu_type-total (x ∷ hand) mah melds own h = (_, refl)

insert_drop-cons :
    (mah x : ℕ) (l : List ℕ) → (y : ℕ) × (m : List ℕ) × (insert_drop mah (x ∷ l) ≡ y ∷ m)
unfolding insert_drop
insert_drop-cons mah x l = elim (Bool-cases (leb mah x)) [
  | inl e ↦ (mah, x ∷ l, rw e refl)
  | inr e ↦ (x, insert_drop mah l, rw e refl)
]

pub generate_hu_type-total_other :
    (hand : List ℕ) (mah : ℕ) (melds : List PengGangInfo) (own : Bool)
    → hand ≢ []
    → (l : List HuType) × (generate_hu_type hand mah melds own false ≡ some l)
unfolding generate_hu_type is_qing_yi_se
generate_hu_type-total_other [] mah melds own h = absurd (h refl)
generate_hu_type-total_other (x ∷ hand) mah melds own h =
    let (y, m, e) = insert_drop-cons mah x hand in rw e (_, refl)
