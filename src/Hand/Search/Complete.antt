-- ===== src/Hand/Search/Complete.antt =====
-- A grouped hand that can be divided is found to be so, by the search with enough fuel.
use mahjong_server.Common.{
  ℕ, zero, suc, ◌+◌, ◌*◌, ◌≤◌, ◌<◌, ◌≡◌, refl, true, false, List, [], ◌∷◌, Option, none, some,
  arith, ◌==◌, length, Bool-cases, ◌⊎◌, inl, inr, All, count, count-append, ltb,
}
use mahjong_server.Hand.{
  MahInfo, Devide, is_shunzi, take_triplet, take_shunzi, all_count, mah_at, amount_at, push_meld,
  search_from, last_pair, can_hu_within, is_some,
}
use mahjong_server.Hand.Group.{tally, IsGroup}
use mahjong_server.Hand.Remove.{IsStandard, index_of}
use mahjong_server.Hand.Wins.{Meld, triplet, shunzi, tiles, IsMeld, tiles_of}
use mahjong_server.Hand.Search.Runs.{
  is_shunzi-IsRunAt, Takes, take_triplet-Takes, take_shunzi-Takes, run_index,
}

-- The search takes something out at an index, and the recursion on the rest succeeds.
abbrev IsHit : (List MahInfo → Devide → Option Devide) → ℕ → List MahInfo → Devide → Type 0
IsHit rec i g d =
    ((3 ≤ amount_at g i) × (is_some (rec (take_triplet i g) d) ≡ true))
    ⊎ ((is_shunzi g i ≡ true) × (is_some (rec (take_shunzi i g) d) ≡ true))

is_some-push_meld_first :
    (meld : List ℕ) (o other : Option Devide)
    → is_some o ≡ true
    → is_some (push_meld meld o other) ≡ true
is_some-push_meld_first meld none other h = cc
is_some-push_meld_first meld (some d) other h = refl

is_some-push_meld_other :
    (meld : List ℕ) (o other : Option Devide)
    → is_some other ≡ true
    → is_some (push_meld meld o other) ≡ true
is_some-push_meld_other meld none other h = h
is_some-push_meld_other meld (some d) other h = refl

module _ (rec : List MahInfo → Devide → Option Devide) where
  is_some-search_from_next :
      (n i : ℕ) (g : List MahInfo) (d : Devide)
      → is_some (search_from rec n (i + 1) g d) ≡ true
      → is_some (search_from rec (suc n) i g d) ≡ true
  unfolding search_from
  is_some-search_from_next n i g d h = ground (
    arith,
    is_some-push_meld_other (mah_at g i ∷ mah_at g i ∷ mah_at g i ∷ []) (rec (take_triplet i g) d),
    is_some-push_meld_other (mah_at g i ∷ mah_at g (i + 1) ∷ mah_at g (i + 2) ∷ [])
        (rec (take_shunzi i g) d) (search_from rec n (i + 1) g d),
  )

  is_some-search_from_hit :
      (n i : ℕ) (g : List MahInfo) (d : Devide)
      → IsHit rec i g d
      → is_some (search_from rec (suc n) i g d) ≡ true
  unfolding search_from
  is_some-search_from_hit n i g d h = ground arith

  pub is_some-search_from :
      (n i j : ℕ) (g : List MahInfo) (d : Devide)
      → i ≤ j
      → j < i + n
      → IsHit rec j g d
      → is_some (search_from rec n i g d) ≡ true
  is_some-search_from zero i j g d p q h = absurd (omega arith)
  is_some-search_from (suc n) i j g d p q h = elim (Bool-cases (i == j)) [
    | inl e ↦ is_some-search_from_hit n i g d (let e' : j ≡ i = ground arith in rw e' at h)
    | inr e ↦
        is_some-search_from_next n i g d
          (is_some-search_from n (i + 1) j g d (ground arith) (omega arith) h)
  ]

-- A division of a grouped hand by `ms` and a pair.
pub record IsDivided (g : List MahInfo) (eye : ℕ) (ms : List Meld) : Type 0 where
  pub group : IsGroup 0 g
  pub standard : IsStandard g
  pub counts : (y : ℕ) → tally y g ≡ count y (eye ∷ eye ∷ tiles_of ms)
  pub total : all_count g ≡ 2 + 3 * length ms

IsDivided-rest :
    (g rest : List MahInfo) (eye : ℕ) (m : Meld) (ms : List Meld)
    → Takes g rest m
    → IsDivided g eye (m ∷ ms)
    → IsDivided rest eye ms
IsDivided-rest g rest eye m ms t v = record {
  group = t.group;
  standard = t.standard;
  counts = λ y. omega (arith, t.counts y, v.counts y, count-append y (tiles m) (tiles_of ms));
  total = omega (arith, t.fewer, v.total);
}

last_pair-IsDivided :
    (g : List MahInfo) (eye : ℕ) (d : Devide) → IsDivided g eye [] → is_some (last_pair g d) ≡ true
unfolding last_pair all_count
last_pair-IsDivided [] eye d v = absurd (omega (arith, v.total))
last_pair-IsDivided (a ∷ []) eye d v = ground (arith, v.total)
last_pair-IsDivided (a ∷ b ∷ g) eye d v =
    absurd (ground (arith, v.total, v.counts a.mah, v.counts b.mah, v.group))

pub can_hu_within-total :
    (ms : List Meld) (fuel : ℕ) (g : List MahInfo) (eye : ℕ) (d : Devide)
    → length ms < fuel
    → All IsMeld ms
    → IsDivided g eye ms
    → is_some (can_hu_within fuel g d) ≡ true
unfolding can_hu_within
can_hu_within-total ms zero g eye d h ok v = absurd (omega arith)
can_hu_within-total [] (suc fuel) g eye d h ok v =
    let e : ltb 2 (all_count g) ≡ false = ground (arith, v.total) in
    rw e (last_pair-IsDivided g eye d v)
can_hu_within-total (triplet x ∷ ms) (suc fuel) g eye d h ok v =
    let e : ltb 2 (all_count g) ≡ true = ground (arith, v.total) in
    let (i, inside, m, c) = index_of x 0 g v.group (ground (arith, v.counts x)) in
    let three : 3 ≤ amount_at g i = ground (arith, v.counts x) in
    let t = take_triplet-Takes g i v.group v.standard three in
    let rest = IsDivided-rest g (take_triplet i g) eye (triplet x) ms (rw m at t) v in
    rw e (
      is_some-search_from (can_hu_within fuel) (length g) 0 i g d (omega arith) (omega arith)
        (inl (three, can_hu_within-total ms fuel (take_triplet i g) eye d (omega arith) ok.1 rest)))
can_hu_within-total (shunzi x ∷ ms) (suc fuel) g eye d h ok v =
    let e : ltb 2 (all_count g) ≡ true = ground (arith, v.total) in
    let (i, r, m) =
      run_index x 0 g v.group ok.0 (ground (arith, v.counts x)) (ground (arith, v.counts (x + 1)))
        (ground (arith, v.counts (x + 2))) in
    let room = (is_shunzi-IsRunAt g i v.standard r).room in
    let t = take_shunzi-Takes g i v.group v.standard r in
    let rest = IsDivided-rest g (take_shunzi i g) eye (shunzi x) ms (rw m at t) v in
    rw e (
      is_some-search_from (can_hu_within fuel) (length g) 0 i g d (omega arith) (omega arith)
        (inr (r, can_hu_within-total ms fuel (take_shunzi i g) eye d (omega arith) ok.1 rest)))
