-- ===== src/Hand/Search/Sound.antt =====
-- What the search returns is what was passed to it with a division of the hand behind it: the pair
-- first, and then the melds.
use mathlib.Core.List.{map-append, append_assoc}
use mahjong_server.Common.{
  ℕ, zero, suc, ◌+◌, ◌≡◌, refl, List, [], ◌∷◌, ◌++◌, map, Option, none, some, arith, length,
  if◌then◌else◌, Bool-cases, ◌⊎◌, inl, inr, All, All-append, count, count-append, leb, ltb,
}
use mahjong_server.Hand.{
  MahInfo, Devide, is_shunzi, take_triplet, take_shunzi, all_count, mah_at, amount_at, push_meld,
  search_from, last_pair, can_hu_within,
}
use mahjong_server.Hand.Group.{tally, IsGroup}
use mahjong_server.Hand.Remove.{IsStandard}
use mahjong_server.Hand.Wins.{Meld, triplet, shunzi, tiles, IsMeld, tiles_of}
use mahjong_server.Hand.Search.Runs.{
  is_shunzi-IsRunAt, Takes, take_triplet-Takes, take_shunzi-Takes,
}

-- `r` is `d` with a division of `g` behind it.
pub record Divides (g : List MahInfo) (d r : Devide) : Type 0 where
  pub eye : ℕ
  pub melds : List Meld
  pub melds_ok : All IsMeld melds
  pub result : r ≡ d ++ (eye ∷ eye ∷ []) ∷ map tiles melds
  pub counts : (y : ℕ) → tally y g ≡ count y (eye ∷ eye ∷ tiles_of melds)

tiles_of-snoc :
    (y : ℕ) (ms : List Meld) (m : Meld)
    → count y (tiles_of (ms ++ m ∷ [])) ≡ count y (tiles m) + count y (tiles_of ms)
tiles_of-snoc y [] m = omega (arith, count-append y (tiles m) [])
tiles_of-snoc y (k ∷ ms) m = omega (
  arith,
  tiles_of-snoc y ms m,
  count-append y (tiles k) (tiles_of (ms ++ m ∷ [])),
  count-append y (tiles k) (tiles_of ms),
)

-- A division of what is left, with the meld that was taken.
Divides-push :
    (g rest : List MahInfo) (m : Meld) (d r : Devide)
    → IsMeld m
    → Takes g rest m
    → Divides rest d r
    → Divides g d (r ++ tiles m ∷ [])
Divides-push g rest m d r ok t v = record {
  eye = v.eye;
  melds = v.melds ++ m ∷ [];
  melds_ok = All-append IsMeld v.melds (m ∷ []) v.melds_ok (ok, tt);
  result = rw (v.result) (simp (append_assoc, map-append));
  counts = λ y. omega (arith, t.counts y, v.counts y, tiles_of-snoc y v.melds m);
}

abbrev IsSound : (List MahInfo → Devide → Option Devide) → Type 0
IsSound rec =
    (g : List MahInfo) (d r : Devide)
    → IsGroup 0 g
    → IsStandard g
    → rec g d ≡ some r
    → Divides g d r

-- Which of the two pushed.
push_meld-some :
    (meld : List ℕ) (o other : Option Devide) (r : Devide)
    → push_meld meld o other ≡ some r
    → ((d : Devide) × (o ≡ some d) × (r ≡ d ++ meld ∷ [])) ⊎ (other ≡ some r)
push_meld-some meld none other r h = inr h
push_meld-some meld (some d) other r h = inl (d, refl, cc)

module _ (rec : List MahInfo → Devide → Option Devide) (sound : IsSound rec) where
  run_sound :
      (i : ℕ) (g : List MahInfo) (d r : Devide) (next : Option Devide)
      → IsGroup 0 g
      → IsStandard g
      → (next ≡ some r → Divides g d r)
      → (if is_shunzi g i
          then push_meld
              (mah_at g i ∷ mah_at g (i + 1) ∷ mah_at g (i + 2) ∷ [])
              (rec (take_shunzi i g) d)
              next
          else next)
        ≡ some r
      → Divides g d r
  run_sound i g d r next v s later h = elim (Bool-cases (is_shunzi g i)) [
    | inl e ↦
        let q = is_shunzi-IsRunAt g i s e in
        let t = take_shunzi-Takes g i v s e in
        elim (push_meld-some _ (rec (take_shunzi i g) d) next r (rw e at h)) [
          | inl (d', f, k) ↦
              rw (k, q.second, q.third)
                (Divides-push g (take_shunzi i g) (shunzi (mah_at g i)) d d' q.suit t
                  (sound (take_shunzi i g) d d' t.group t.standard f))
          | inr k ↦ later k
        ]
    | inr e ↦ later (rw e at h)
  ]

  pub search_from-Divides :
      (n i : ℕ) (g : List MahInfo) (d r : Devide)
      → IsGroup 0 g
      → IsStandard g
      → search_from rec n i g d ≡ some r
      → Divides g d r
  unfolding search_from
  search_from-Divides zero i g d r v s h = cc
  search_from-Divides (suc n) i g d r v s h = elim (Bool-cases (leb 3 (amount_at g i))) [
    | inl e ↦
        let t = take_triplet-Takes g i v s (ground arith) in
        elim (push_meld-some _ (rec (take_triplet i g) d) _ r (rw e at h)) [
          | inl (d', f, k) ↦ rw k (
              Divides-push g (take_triplet i g) (triplet (mah_at g i)) d d' tt t
                (sound (take_triplet i g) d d' t.group t.standard f))
          | inr k ↦ run_sound i g d r _ v s (search_from-Divides n (i + 1) g d r v s) k
        ]
    | inr e ↦ run_sound i g d r _ v s (search_from-Divides n (i + 1) g d r v s) (rw e at h)
  ]

last_pair-Divides : (g : List MahInfo) (d r : Devide) → last_pair g d ≡ some r → Divides g d r
unfolding last_pair
last_pair-Divides [] d r h = cc
last_pair-Divides (a ∷ b ∷ g) d r h = cc
last_pair-Divides (a ∷ []) d r h = record {
  eye = a.mah;
  melds = [];
  melds_ok = tt;
  result = ground arith;
  counts = λ y. ground arith;
}

-- Whatever the search returns holds a division of the hand.
pub can_hu_within-Divides : (fuel : ℕ) → IsSound (can_hu_within fuel)
unfolding can_hu_within
can_hu_within-Divides zero g d r v s h = cc
can_hu_within-Divides (suc fuel) g d r v s h = elim (Bool-cases (ltb 2 (all_count g))) [
  | inl e ↦
      search_from-Divides (can_hu_within fuel) (can_hu_within-Divides fuel) (length g) 0 g d r v s
        (rw e at h)
  | inr e ↦ last_pair-Divides g d r (rw e at h)
]
