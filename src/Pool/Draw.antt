-- ===== src/Pool/Draw.antt =====
-- Drawing from the pool: a tile goes from its back, and a flower goes aside for the next.
use mahjong_server.Common.{
  ℕ, zero, suc, ◌+◌, ◌-◌, ◌<◌, ◌≡◌, refl, ◌∙◌, false, List, [], ◌∷◌, some, arith, ◌==◌,
  if◌then◌else◌, count, count-append, length, length-append, get_or, erase_idx, Bool-cases, inl,
  inr, All, All-append,
}
use mahjong_server.Tile.{m_max, is_hua}
use mahjong_server.Pool.{Dealing, request_get, push_at, deal_one}
use mahjong_server.Pool.Lists.{one_if, count-erase_idx, length-erase_idx}

-- How many flowers a list holds.
abbrev pub flowers : List ℕ → ℕ
flowers [] = 0
flowers (x ∷ xs) = (if is_hua x then 1 else 0) + flowers xs

flowers-erase_idx :
    (i : ℕ) (l : List ℕ)
    → i < length l
    → (if is_hua (get_or l i m_max) then 1 else 0) + flowers (erase_idx l i) ≡ flowers l
flowers-erase_idx i [] h = absurd (omega arith)
flowers-erase_idx zero (y ∷ l) h = refl
flowers-erase_idx (suc i) (y ∷ l) h = omega (arith, flowers-erase_idx i l (omega arith))

-- From a pool that is not empty exactly the tile that is returned is gone.
pub record Drawn (pool : List ℕ) (mah : ℕ) (rest : List ℕ) : Type 0 where
  pub counts : (x : ℕ) → one_if mah x + count x rest ≡ count x pool
  pub one_less : suc (length rest) ≡ length pool
  pub flowers_left : (if is_hua mah then 1 else 0) + flowers rest ≡ flowers pool

-- `requestGet` on a pool that is not empty takes exactly the tile that it returns out of the pool,
-- and on an empty one returns M_MAX.
pub request_get_lem :
    (pool : List ℕ)
    → (0 < length pool → Drawn pool (request_get pool).0 (request_get pool).1)
      × (length pool ≡ 0 → request_get pool ≡ (m_max, pool))
unfolding request_get
request_get_lem pool = (filled, λ h. rw h refl)
  where
    filled : 0 < length pool → Drawn pool (request_get pool).0 (request_get pool).1
    filled h =
        let e : (length pool == 0) ≡ false = ground arith in
        rw e (record {
          counts = λ x. count-erase_idx x m_max (length pool - 1) pool (omega arith);
          one_less = length-erase_idx (length pool - 1) pool (omega arith);
          flowers_left = flowers-erase_idx (length pool - 1) pool (omega arith);
        })

abbrev pub count_all : ℕ → List (List ℕ) → ℕ
count_all x [] = 0
count_all x (l ∷ ls) = count x l + count_all x ls

pub count_all-push_at :
    (x i v : ℕ) (ls : List (List ℕ))
    → i < length ls
    → count_all x (push_at ls i v) ≡ one_if v x + count_all x ls
unfolding push_at
count_all-push_at x i v [] h = absurd (omega arith)
count_all-push_at x zero v (l ∷ ls) h = omega (arith, count-append x l (v ∷ []))
count_all-push_at x (suc i) v (l ∷ ls) h = omega (arith, count_all-push_at x i v ls (omega arith))

pub length-push_at : (i v : ℕ) (ls : List (List ℕ)) → length (push_at ls i v) ≡ length ls
unfolding push_at
length-push_at i v [] = refl
length-push_at zero v (l ∷ ls) = refl
length-push_at (suc i) v (l ∷ ls) = omega (arith, length-push_at i v ls)

-- One hand grows by one tile.
pub length-get_or-push_at :
    (i j v : ℕ) (ls : List (List ℕ))
    → i < length ls
    → length (get_or (push_at ls i v) j []) ≡ (if j == i then 1 else 0) + length (get_or ls j [])
unfolding push_at
length-get_or-push_at i j v [] h = absurd (omega arith)
length-get_or-push_at zero zero v (l ∷ ls) h = omega (arith, length-append l (v ∷ []))
length-get_or-push_at zero (suc j) v (l ∷ ls) h = ground arith
length-get_or-push_at (suc i) zero v (l ∷ ls) h = ground arith
length-get_or-push_at (suc i) (suc j) v (l ∷ ls) h =
    ground (arith, length-get_or-push_at i j v ls (omega arith))

abbrev pub IsPlain : List ℕ → Type 0
IsPlain = All (λ x. is_hua x ≡ false)

pub IsPlain-push_at :
    (i v : ℕ) (ls : List (List ℕ))
    → is_hua v ≡ false
    → All IsPlain ls
    → All IsPlain (push_at ls i v)
unfolding push_at
IsPlain-push_at i v [] h p = tt
IsPlain-push_at zero v (l ∷ ls) h p =
    (All-append (λ x. is_hua x ≡ false) l (v ∷ []) p.0 (h, tt), p.1)
IsPlain-push_at (suc i) v (l ∷ ls) h p = (p.0, IsPlain-push_at i v ls h p.1)

-- All the tiles of a kind, in the pool, in the hands and aside.
abbrev pub whole : ℕ → Dealing → ℕ
whole x s = count x s.pool + count_all x s.hands + count_all x s.huas

-- One seat has been dealt one tile, and the flowers in front of it have gone aside.
pub record DealtOne (s t : Dealing) : Type 0 where
  pub assign_same : t.assign ≡ s.assign
  pub kept : (x : ℕ) → whole x t ≡ whole x s
  pub seats : (length t.hands ≡ length s.hands) × (length t.huas ≡ length s.huas)
  pub grown :
      (j : ℕ)
      → length (get_or t.hands j [])
        ≡ (if j == s.assign then 1 else 0) + length (get_or s.hands j [])
  pub plain : All IsPlain s.hands → All IsPlain t.hands
  pub drawn : length t.pool + flowers s.pool + 1 ≡ length s.pool + flowers t.pool

pub deal_one_lem :
    (fuel : ℕ) (s : Dealing)
    → length s.pool < fuel
    → flowers s.pool < length s.pool
    → s.assign < length s.hands
    → s.assign < length s.huas
    → (t : Dealing) × (deal_one fuel s ≡ some t) × DealtOne s t
unfolding deal_one
deal_one_lem zero s h k a b = absurd (omega arith)
deal_one_lem (suc fuel) s h k a b =
    let mah = (request_get s.pool).0 in
    let rest = (request_get s.pool).1 in
    let d = (request_get_lem s.pool).0 (omega arith) in
    elim (Bool-cases (is_hua mah)) [
      | inl e ↦
          let s' = record s { pool = rest; huas = push_at s.huas s.assign mah } in
          let same = length-push_at s.assign mah s.huas in
          let (t, run, o) =
            deal_one_lem fuel s' (omega (arith, d.one_less))
              (ground (arith, d.one_less, d.flowers_left)) a (omega (arith, same)) in
          rw e (
            t,
            run,
            record {
              assign_same = o.assign_same;
              kept = λ x.
                  omega (arith, o.kept x, d.counts x, count_all-push_at x s.assign mah s.huas b);
              seats = (o.seats.0, o.seats.1 ∙ same);
              grown = o.grown;
              plain = o.plain;
              drawn = ground (arith, o.drawn, d.one_less, d.flowers_left);
            },
          )
      | inr e ↦ rw e (
        record s { pool = rest; hands = push_at s.hands s.assign mah },
        refl,
        record {
          assign_same = refl;
          kept = λ x. omega (arith, d.counts x, count_all-push_at x s.assign mah s.hands a);
          seats = (length-push_at s.assign mah s.hands, refl);
          grown = λ j. length-get_or-push_at s.assign j mah s.hands a;
          plain = IsPlain-push_at s.assign mah s.hands e;
          drawn = ground (arith, d.one_less, d.flowers_left);
        },
      )
    ]
