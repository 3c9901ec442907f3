-- ===== src/Room/EndGame/Money.antt =====
-- The money at the end of a game: what each win moves, and that nothing is made or lost.
use mahjong_server.Common.{
  ℕ, suc, ◌+◌, ◌-◌, ◌*◌, ◌<◌, ◌≡◌, refl, sym, ◌∙◌, ap, true, false, List, [], ◌∷◌, some, ◌==◌,
  if◌then◌else◌, length, count, arith, All, Bool-cases, inl, inr,
}
use mahjong_server.Common.Int.{ℤ, pos, ◌+ℤ◌, ◌-ℤ◌, pos_part, neg_part, +ℤ_parts, -ℤ_parts}
use mahjong_server.Stl.TxMap.{find, insert, assign, value_or, contains, size}
use mahjong_server.Stl.TxMap.Laws.{IsOrdered, find-below, assign-IsOrdered}
use mahjong_server.Room.State.{HuInfo}
use mahjong_server.Room.EndGame.{
  Deltas, add_delta, sub_delta, self_drawn, money_of, settle_one, settle,
}

-- The sum of all the changes.
abbrev pub total : Deltas → ℤ
total [] = pos 0
total ((p, d) ∷ m) = d +ℤ total m

-- A sum is written as an equation of the parts of the integers.
abbrev Net : ℤ → ℕ → ℕ → Type 0
Net z gained lost = pos_part z + lost ≡ neg_part z + gained

pub insert-present :
    (b k : ℕ) (d e : ℤ) (m : Deltas) → IsOrdered b m → find k m ≡ some d → insert k e m ≡ m
unfolding insert find
insert-present b k d e [] o h = absurd (cc)
insert-present b k d e ((j, w) ∷ m) o h =
    ground (arith, insert-present (j + 1) k d e m, find-below k (j + 1) m)

total-assign :
    (k : ℕ) (d e : ℤ) (m : Deltas)
    → find k m ≡ some d
    → pos_part (total (assign k e m)) + neg_part (total m) + pos_part d + neg_part e
      ≡ neg_part (total (assign k e m)) + pos_part (total m) + neg_part d + pos_part e
unfolding assign find
total-assign k d e [] h = absurd (cc)
total-assign k d e ((j, w) ∷ m) h = ground (
  arith,
  total-assign k d e m,
  +ℤ_parts w (total m),
  +ℤ_parts e (total m),
  +ℤ_parts w (total (assign k e m)),
)

pub total-insert :
    (k : ℕ) (m : Deltas)
    → pos_part (total (insert k (pos 0) m)) + neg_part (total m)
      ≡ neg_part (total (insert k (pos 0) m)) + pos_part (total m)
unfolding insert
total-insert k [] = ground (arith, +ℤ_parts (pos 0) (pos 0))
total-insert k ((j, w) ∷ m) = ground (
  arith,
  total-insert k m,
  +ℤ_parts w (total m),
  +ℤ_parts (pos 0) (w +ℤ total m),
  +ℤ_parts w (total (insert k (pos 0) m)),
)

-- The keys that are not the winner's.
abbrev others : ℕ → Deltas → ℕ
others winner [] = 0
others winner ((p, d) ∷ m) = (if p == winner then 0 else 1) + others winner m

others-absent : (b w : ℕ) (m : Deltas) → w < b → IsOrdered b m → others w m ≡ size m
unfolding size
others-absent b w [] h o = refl
others-absent b w ((j, d) ∷ m) h o = ground (arith, others-absent (j + 1) w m)

others-present :
    (b w : ℕ) (m : Deltas) → IsOrdered b m → contains w m ≡ true → suc (others w m) ≡ size m
unfolding size contains find
others-present b w [] o h = absurd (cc)
others-present b w ((j, d) ∷ m) o h =
    ground (arith, others-present (j + 1) w m, others-absent (j + 1) w m)

self_drawn-total :
    (w seats money : ℕ) (m : Deltas)
    → pos_part (total (self_drawn w seats money m))
        + neg_part (total m)
        + others w m * money
        + others w m * ((seats - 1) * money)
      ≡ neg_part (total (self_drawn w seats money m))
        + pos_part (total m)
        + size m * ((seats - 1) * money)
unfolding self_drawn size
self_drawn-total w seats money [] = omega arith
self_drawn-total w seats money ((j, d) ∷ m) = ground (
  arith,
  self_drawn-total w seats money m,
  +ℤ_parts d (total m),
  -ℤ_parts d (pos money),
  +ℤ_parts d (pos ((seats - 1) * money)),
  +ℤ_parts (d -ℤ pos money) (total (self_drawn w seats money m)),
  +ℤ_parts (d +ℤ pos ((seats - 1) * money)) (total (self_drawn w seats money m)),
)

find-self_drawn :
    (j w seats money : ℕ) (m : Deltas) → contains j (self_drawn w seats money m) ≡ contains j m
unfolding self_drawn contains find
find-self_drawn j w seats money [] = refl
find-self_drawn j w seats money ((i, d) ∷ m) = ground (arith, find-self_drawn j w seats money m)

self_drawn-IsOrdered :
    (b w seats money : ℕ) (m : Deltas) → IsOrdered b m → IsOrdered b (self_drawn w seats money m)
unfolding self_drawn
self_drawn-IsOrdered b w seats money [] o = tt
self_drawn-IsOrdered b w seats money ((i, d) ∷ m) o =
    (o.0, self_drawn-IsOrdered (i + 1) w seats money m o.1)

size-self_drawn : (w seats money : ℕ) (m : Deltas) → size (self_drawn w seats money m) ≡ size m
unfolding self_drawn size
size-self_drawn w seats money [] = refl
size-self_drawn w seats money ((i, d) ∷ m) = ap suc (size-self_drawn w seats money m)

size-assign : (k : ℕ) (v : ℤ) (m : Deltas) → size (assign k v m) ≡ size m
unfolding assign size
size-assign k v [] = refl
size-assign k v ((i, d) ∷ m) = ground (arith, size-assign k v m)

pub size-insert :
    (b k : ℕ) (v : ℤ) (m : Deltas) → contains k m ≡ false → size (insert k v m) ≡ suc (size m)
unfolding insert size contains find
size-insert b k v [] h = refl
size-insert b k v ((i, d) ∷ m) h = ground (arith, size-insert b k v m)

pub contains-assign : (j k : ℕ) (v : ℤ) (m : Deltas) → contains j (assign k v m) ≡ contains j m
unfolding assign contains find
contains-assign j k v [] = refl
contains-assign j k v ((i, d) ∷ m) = ground (arith, contains-assign j k v m)

-- A table of all the players, in order, with nothing made or lost.
pub record IsTable (ps : List ℕ) (m : Deltas) : Type 0 where
  pub ordered : IsOrdered 0 m
  pub sizes : size m ≡ length ps
  pub present : (p : ℕ) → 0 < count p ps → contains p m ≡ true
  pub balanced : pos_part (total m) ≡ neg_part (total m)

pub contains-value :
    (k : ℕ) (m : Deltas) → contains k m ≡ true → find k m ≡ some (value_or (find k m) (pos 0))
unfolding contains
contains-value k m h = ground arith

pub add_delta-present :
    (k : ℕ) (e : ℤ) (m : Deltas)
    → IsOrdered 0 m
    → contains k m ≡ true
    → add_delta k e m ≡ assign k (value_or (find k m) (pos 0) +ℤ e) m
unfolding add_delta assign
add_delta-present k e m o h =
    ap (λ p. assign k (value_or (find k p) (pos 0) +ℤ e) p)
      (insert-present 0 k (value_or (find k m) (pos 0)) (pos 0) m o (contains-value k m h))

pub sub_delta-present :
    (k : ℕ) (e : ℤ) (m : Deltas)
    → IsOrdered 0 m
    → contains k m ≡ true
    → sub_delta k e m ≡ assign k (value_or (find k m) (pos 0) -ℤ e) m
unfolding sub_delta assign
sub_delta-present k e m o h =
    ap (λ p. assign k (value_or (find k p) (pos 0) -ℤ e) p)
      (insert-present 0 k (value_or (find k m) (pos 0)) (pos 0) m o (contains-value k m h))

fair_share : (a s x money : ℕ) → s ≡ suc a → x ≡ a * money → a * money + a * x ≡ s * x
fair_share a s x money e f = rw (e, f) (omega arith)

-- A win names its winner, and both players sit at the table.
pub record IsWinOf (ps : List ℕ) (winner : ℕ) (i : HuInfo) : Type 0 where
  pub same : i.hu_player ≡ winner
  pub winner_seated : 0 < count winner ps
  pub dropper_seated : 0 < count i.dropped_player ps

self_drawn-IsTable :
    (ps : List ℕ) (w money : ℕ) (m : Deltas)
    → 0 < count w ps
    → IsTable ps m
    → IsTable ps (self_drawn w (length ps) money m)
self_drawn-IsTable ps w money m h t = record {
  ordered = self_drawn-IsOrdered 0 w (length ps) money m t.ordered;
  sizes = size-self_drawn w (length ps) money m ∙ t.sizes;
  present = λ p k. find-self_drawn p w (length ps) money m ∙ t.present p k;
  balanced =
      (let e = others-present 0 w m t.ordered (t.present w h) in
        let f : length ps - 1 ≡ others w m = omega (arith, e, t.sizes) in
        omega (
          arith,
          t.balanced,
          self_drawn-total w (length ps) money m,
          fair_share (others w m) (size m) ((length ps - 1) * money) money (sym e)
              (ap (λ n. n * money) f),
        ));
}

abbrev pub moved : ℕ → ℕ → ℕ → Deltas → Deltas
moved winner dropper money m = sub_delta dropper (pos money) (add_delta winner (pos money) m)

assign-IsTable :
    (ps : List ℕ) (k : ℕ) (v : ℤ) (m : Deltas)
    → IsOrdered 0 m
    → size m ≡ length ps
    → ((p : ℕ) → 0 < count p ps → contains p m ≡ true)
    → IsOrdered 0 (assign k v m)
      × (size (assign k v m) ≡ length ps)
      × ((p : ℕ) → 0 < count p ps → contains p (assign k v m) ≡ true)
assign-IsTable ps k v m o e f =
    (assign-IsOrdered 0 k v m o, size-assign k v m ∙ e, λ p h. contains-assign p k v m ∙ f p h)

moved-IsTable :
    (ps : List ℕ) (w d money : ℕ) (m : Deltas)
    → 0 < count w ps
    → 0 < count d ps
    → IsTable ps m
    → IsTable ps (moved w d money m)
moved-IsTable ps w d money m h k t =
    let v = value_or (find w m) (pos 0) in
    let m' = assign w (v +ℤ pos money) m in
    let (o, e, f) = assign-IsTable ps w (v +ℤ pos money) m t.ordered t.sizes t.present in
    let u = value_or (find d m') (pos 0) in
    let (o', e', f') = assign-IsTable ps d (u -ℤ pos money) m' o e f in
    let run : moved w d money m ≡ assign d (u -ℤ pos money) m' =
      ap (sub_delta d (pos money)) (add_delta-present w (pos money) m t.ordered (t.present w h))
      ∙ sub_delta-present d (pos money) m' o (f d k) in
    rw run (record {
      ordered = o';
      sizes = e';
      present = f';
      balanced = omega (
        arith,
        t.balanced,
        total-assign w v (v +ℤ pos money) m (contains-value w m (t.present w h)),
        total-assign d u (u -ℤ pos money) m' (contains-value d m' (f d k)),
        +ℤ_parts v (pos money),
        -ℤ_parts u (pos money),
      );
    })

settle_one-IsTable :
    (ps : List ℕ) (w : ℕ) (i : HuInfo) (m : Deltas)
    → IsWinOf ps w i
    → IsTable ps m
    → IsTable ps (settle_one (length ps) w i m)
unfolding settle_one
settle_one-IsTable ps w i m h t = elim (Bool-cases (i.dropped_player == i.hu_player)) [
  | inl e ↦ rw e (self_drawn-IsTable ps w (money_of i) m h.winner_seated t)
  | inr e ↦
      rw e (moved-IsTable ps w i.dropped_player (money_of i) m h.winner_seated h.dropper_seated t)
]

pub settle-IsTable :
    (ps : List ℕ) (hus : List (ℕ × HuInfo)) (m : Deltas)
    → All (λ h. IsWinOf ps h.0 h.1) hus
    → IsTable ps m
    → IsTable ps (settle (length ps) hus m)
unfolding settle
settle-IsTable ps [] m h t = t
settle-IsTable ps ((w, i) ∷ hus) m h t =
    settle-IsTable ps hus (settle_one (length ps) w i m) h.1 (settle_one-IsTable ps w i m h.0 t)
