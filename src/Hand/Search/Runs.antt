-- ===== src/Hand/Search/Runs.antt =====
-- `isShunzi` at an index, and what the two ways to take a meld out leave.
use mahjong_server.Common.{
  ℕ, zero, suc, ◌+◌, ◌≤◌, ◌<◌, ◌≡◌, refl, ◌∙◌, true, List, [], ◌∷◌, arith, ◌==◌, length,
  if◌then◌else◌, Bool-cases, inl, inr, count,
}
use mahjong_server.Hand.{
  MahInfo, is_shunzi, take_off, take_triplet, take_shunzi, all_count, mah_at, amount_at,
}
use mahjong_server.Hand.Group.{tally, IsGroup}
use mahjong_server.Hand.Remove.{
  IsStandard, tally-take_off, all_count-take_off, take_off-IsGroup, take_off-IsStandard,
  take_off_front, amount_at-out, amount_at-pos, tally-below,
}
use mahjong_server.Hand.Wins.{Meld, triplet, shunzi, tiles, IsMeld}

-- What a run at an index means: three infos of rising numbers of one suit.
pub record IsRunAt (g : List MahInfo) (i : ℕ) : Type 0 where
  pub room : i + 2 < length g
  pub second : mah_at g (i + 1) ≡ mah_at g i + 1
  pub third : mah_at g (i + 2) ≡ mah_at g i + 2
  pub suit : IsMeld (shunzi (mah_at g i))

shift : (a : MahInfo) (g : List MahInfo) (i : ℕ) → IsRunAt g i → IsRunAt (a ∷ g) (suc i)
shift a g i r = record {
  room = omega (arith, r.room);
  second = ground (arith, r.second);
  third = ground (arith, r.third);
  suit = r.suit;
}

pub is_shunzi-IsRunAt :
    (g : List MahInfo) (i : ℕ) → IsStandard g → is_shunzi g i ≡ true → IsRunAt g i
unfolding is_shunzi
is_shunzi-IsRunAt [] i v h = cc
is_shunzi-IsRunAt (a ∷ []) zero v h = cc
is_shunzi-IsRunAt (a ∷ b ∷ []) zero v h = cc
is_shunzi-IsRunAt (a ∷ b ∷ c ∷ g) zero v h = ground arith
is_shunzi-IsRunAt (a ∷ g) (suc i) v h = shift a g i (is_shunzi-IsRunAt g i v.1 h)

IsRunAt-is_shunzi :
    (a b c : MahInfo) (g : List MahInfo)
    → IsMeld (shunzi a.mah)
    → b.mah ≡ a.mah + 1
    → c.mah ≡ a.mah + 2
    → is_shunzi (a ∷ b ∷ c ∷ g) 0 ≡ true
unfolding is_shunzi
IsRunAt-is_shunzi a b c g m e f = ground arith

-- The number of tiles of the kind that heads a group is found at its head.
head_of :
    (x : ℕ) (g : List MahInfo)
    → IsGroup x g
    → 0 < tally x g
    → (a : MahInfo) × (rest : List MahInfo) × (g ≡ a ∷ rest) × (a.mah ≡ x) × IsGroup (x + 1) rest
head_of x [] v h = absurd (omega arith)
head_of x (a ∷ g) v h = elim (Bool-cases (a.mah == x)) [
  | inl e ↦ let e' : a.mah ≡ x = ground arith in (a, g, refl, e', rw e' at v.2)
  | inr e ↦ absurd (ground (arith, tally-below x (a.mah + 1) g))
]

run_head :
    (x : ℕ) (a : MahInfo) (g : List MahInfo)
    → IsGroup (a.mah + 1) g
    → a.mah ≡ x
    → IsMeld (shunzi x)
    → 0 < tally (x + 1) g
    → 0 < tally (x + 2) g
    → is_shunzi (a ∷ g) 0 ≡ true
run_head x a g v e m k l =
    let (b, g', eg, eb, v') = head_of (x + 1) g (rw e at v) k in
    let l' : 0 < tally (x + 2) (b ∷ g') = rw eg at l in
    let next : x + 1 + 1 ≡ x + 2 = omega arith in
    let (c, g'', eh, ec, _) = head_of (x + 2) g' (rw next at v') (ground arith) in
    rw (eg, eh) (IsRunAt-is_shunzi a b c g'' (rw (← e) at m) (omega arith) (omega arith))

-- Where three kinds in a row of a suit are all counted, a run stands at some index.
pub run_index :
    (x b : ℕ) (g : List MahInfo)
    → IsGroup b g
    → IsMeld (shunzi x)
    → 0 < tally x g
    → 0 < tally (x + 1) g
    → 0 < tally (x + 2) g
    → (i : ℕ) × (is_shunzi g i ≡ true) × (mah_at g i ≡ x)
unfolding is_shunzi
run_index x b [] v m h k l = absurd (omega arith)
run_index x b (a ∷ g) v m h k l = elim (Bool-cases (a.mah == x)) [
  | inl e ↦ (0, run_head x a g v.2 (ground arith) m (ground arith) (ground arith), ground arith)
  | inr e ↦
      let (i, r, f) =
        run_index x (a.mah + 1) g v.2 m (ground arith) (ground (arith, tally-below x (a.mah + 1) g))
          (ground (arith, tally-below x (a.mah + 1) g)) in
      (suc i, r, f)
]

-- The two ways to take a meld out of a hand at an index: what is left is a standard hand, and its
-- tiles together with the meld's are those of the hand.
pub record Takes (g rest : List MahInfo) (m : Meld) : Type 0 where
  pub group : IsGroup 0 rest
  pub standard : IsStandard rest
  pub counts : (y : ℕ) → tally y g ≡ count y (tiles m) + tally y rest
  pub fewer : all_count rest + 3 ≡ all_count g

pub take_triplet-Takes :
    (g : List MahInfo) (i : ℕ)
    → IsGroup 0 g
    → IsStandard g
    → 3 ≤ amount_at g i
    → Takes g (take_triplet i g) (triplet (mah_at g i))
take_triplet-Takes g i v s h =
    let inside = amount_at-out i g (omega arith) in
    record {
      group = take_off-IsGroup 0 3 i g v;
      standard = take_off-IsStandard 3 i g s;
      counts = λ y. ground (arith, tally-take_off y 3 i g inside h);
      fewer = all_count-take_off 3 i g inside h;
    }

three_counts :
    (y x m₀ m₁ m₂ t t₂ t₁ t₀ : ℕ)
    → t₂ + (if m₂ == y then 1 else 0) ≡ t
    → t₁ + (if m₁ == y then 1 else 0) ≡ t₂
    → t₀ + (if m₀ == y then 1 else 0) ≡ t₁
    → m₀ ≡ x
    → m₁ ≡ x + 1
    → m₂ ≡ x + 2
    → t ≡ count y (tiles (shunzi x)) + t₀
three_counts y x m₀ m₁ m₂ t t₂ t₁ t₀ a b c e f h = ground arith

pub take_shunzi-Takes :
    (g : List MahInfo) (i : ℕ)
    → IsGroup 0 g
    → IsStandard g
    → is_shunzi g i ≡ true
    → Takes g (take_shunzi i g) (shunzi (mah_at g i))
take_shunzi-Takes g i v s h =
    let r = is_shunzi-IsRunAt g i s h in
    let room = r.room in
    let g₂ = take_off 1 (i + 2) g in
    let g₁ = take_off 1 (i + 1) g₂ in
    let p₂ = amount_at-pos 0 (i + 2) g v room in
    let p₁ = amount_at-pos 0 (i + 1) g v (omega arith) in
    let p₀ = amount_at-pos 0 i g v (omega arith) in
    let f₁ = take_off_front 1 (i + 2) (i + 1) g (omega arith) room in
    let f₀ = take_off_front 1 (i + 2) i g (omega arith) room in
    let e₀ = take_off_front 1 (i + 1) i g₂ (omega arith) f₁.2 in
    record {
      group =
          take_off-IsGroup 0 1 i g₁
            (take_off-IsGroup 0 1 (i + 1) g₂ (take_off-IsGroup 0 1 (i + 2) g v));
      standard =
          take_off-IsStandard 1 i g₁
            (take_off-IsStandard 1 (i + 1) g₂ (take_off-IsStandard 1 (i + 2) g s));
      counts = λ y.
          three_counts y (mah_at g i) (mah_at g₁ i) (mah_at g₂ (i + 1)) (mah_at g (i + 2)) _ _ _ _
            (tally-take_off y 1 (i + 2) g room p₂)
            (tally-take_off y 1 (i + 1) g₂ f₁.2 (omega arith))
            (tally-take_off y 1 i g₁ e₀.2 (omega arith)) (e₀.0 ∙ f₀.0) (f₁.0 ∙ r.second) r.third;
      fewer = omega (
        arith,
        all_count-take_off 1 (i + 2) g room p₂,
        all_count-take_off 1 (i + 1) g₂ f₁.2 (omega arith),
        all_count-take_off 1 i g₁ e₀.2 (omega arith),
      );
    }
