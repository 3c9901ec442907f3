-- ===== src/Hand/Decides.antt =====
-- `canHu` decides whether a hand can be divided into a pair and melds.
use mahjong_server.Common.{
  ℕ, suc, ◌+◌, ◌*◌, ◌<◌, ◌≡◌, ◌↔◌, refl, sym, ◌∙◌, true, List, [], ◌∷◌, arith, ◌==◌, if◌then◌else◌,
  All, count, length, SameTiles, Option-cases, inl, inr,
}
use mahjong_server.Hand.{
  MahInfo, add_to_group, group_onto, to_mahjong_group, all_count, can_hu_within, can_hu,
}
use mahjong_server.Hand.Group.{
  tally-to_mahjong_group, to_mahjong_group-IsGroup, all_count-to_mahjong_group,
}
use mahjong_server.Hand.Remove.{IsStandard}
use mahjong_server.Hand.Wins.{Meld, triplet, shunzi, tiles_of, Wins}
use mahjong_server.Hand.Search.Sound.{can_hu_within-Divides}
use mahjong_server.Hand.Search.Complete.{can_hu_within-total}

-- No flower is among the tiles.
abbrev pub NoFlower : List ℕ → Type 0
NoFlower = All (λ x. x < 34)

add_to_group-IsStandard :
    (x : ℕ) (g : List MahInfo) → x < 34 → IsStandard g → IsStandard (add_to_group x g)
unfolding add_to_group
add_to_group-IsStandard x [] h v = (h, tt)
add_to_group-IsStandard x (a ∷ g) h v = ground (arith, add_to_group-IsStandard x g)

group_onto-IsStandard :
    (g : List MahInfo) (hand : List ℕ)
    → IsStandard g
    → NoFlower hand
    → IsStandard (group_onto g hand)
unfolding group_onto
group_onto-IsStandard g [] v h = v
group_onto-IsStandard g (x ∷ xs) v h =
    group_onto-IsStandard (add_to_group x g) xs (add_to_group-IsStandard x g h.0 v) h.1

remove_one : ℕ → List ℕ → List ℕ
remove_one a [] = []
remove_one a (x ∷ xs) = if x == a then xs else x ∷ remove_one a xs

count-remove_one :
    (a b : ℕ) (xs : List ℕ)
    → 0 < count a xs
    → (if a == b then 1 else 0) + count b (remove_one a xs) ≡ count b xs
unfolding remove_one
count-remove_one a b [] h = absurd (omega arith)
count-remove_one a b (x ∷ xs) h = ground (arith, count-remove_one a b xs)

length-remove_one :
    (a : ℕ) (xs : List ℕ) → 0 < count a xs → suc (length (remove_one a xs)) ≡ length xs
unfolding remove_one
length-remove_one a [] h = absurd (omega arith)
length-remove_one a (x ∷ xs) h = ground (arith, length-remove_one a xs)

-- Lists of the same tiles are of one length.
pub length_of_SameTiles : (xs ys : List ℕ) → SameTiles xs ys → length xs ≡ length ys
length_of_SameTiles [] [] h = refl
length_of_SameTiles [] (y ∷ ys) h = absurd (ground (arith, h y))
length_of_SameTiles (x ∷ xs) ys h =
    let pos : 0 < count x ys = ground (arith, h x) in
    let rest : SameTiles xs (remove_one x ys) =
      λ b. omega (arith, h b, count-remove_one x b ys pos) in
    omega (arith, length_of_SameTiles xs (remove_one x ys) rest, length-remove_one x ys pos)

length-tiles_of : (ms : List Meld) → length (tiles_of ms) ≡ 3 * length ms
length-tiles_of [] = refl
length-tiles_of (triplet x ∷ ms) = omega (arith, length-tiles_of ms)
length-tiles_of (shunzi x ∷ ms) = omega (arith, length-tiles_of ms)

to_mahjong_group-IsStandard : (hand : List ℕ) → NoFlower hand → IsStandard (to_mahjong_group hand)
unfolding to_mahjong_group
to_mahjong_group-IsStandard hand h = group_onto-IsStandard [] hand tt h

can_hu-Wins : (hand : List ℕ) → NoFlower hand → can_hu hand ≡ true → Wins hand
unfolding can_hu
can_hu-Wins hand s h =
    let g = to_mahjong_group hand in
    elim (Option-cases (can_hu_within (all_count g + 1) g [])) [
      | inl e ↦ absurd (cc)
      | inr (r, e) ↦
          let v =
            can_hu_within-Divides (all_count g + 1) g [] r (to_mahjong_group-IsGroup hand)
              (to_mahjong_group-IsStandard hand s) e in
          (v.eye, v.melds, v.melds_ok, λ y. sym (tally-to_mahjong_group y hand) ∙ v.counts y)
    ]

Wins-can_hu : (hand : List ℕ) → NoFlower hand → Wins hand → can_hu hand ≡ true
unfolding can_hu
Wins-can_hu hand s (eye, melds, ok, same) =
    let g = to_mahjong_group hand in
    let total : all_count g ≡ 2 + 3 * length melds = omega (
      arith,
      all_count-to_mahjong_group hand,
      length_of_SameTiles hand (eye ∷ eye ∷ tiles_of melds) same,
      length-tiles_of melds,
    ) in
    can_hu_within-total melds (all_count g + 1) g eye [] (omega arith) ok (record {
      group = to_mahjong_group-IsGroup hand;
      standard = to_mahjong_group-IsStandard hand s;
      counts = λ y. tally-to_mahjong_group y hand ∙ same y;
      total = total;
    })

-- For a hand without flowers, `canHu` answers true exactly if the tiles of the hand are, in some
-- order, a pair together with triplets of one kind and runs of three within a numbered suit.
pub can_hu-iff-Wins : (hand : List ℕ) → NoFlower hand → (can_hu hand ≡ true) ↔ Wins hand
can_hu-iff-Wins hand s = (can_hu-Wins hand s, Wins-can_hu hand s)
