-- ===== src/Pool/Deal.antt =====
-- The whole deal: every seat gets its tiles, none is lost, and the search for plain tiles ends.
use mahjong_server.Common.{
  ℕ, zero, suc, ◌+◌, ◌-◌, ◌/◌, ◌%◌, ◌≤◌, ◌<◌, ◌≡◌, refl, ◌∙◌, true, false, ◌&&◌, List, [], some,
  arith, ◌==◌, if◌then◌else◌, count, length, get_or, replicate, All,
}
use mahjong_server.Pool.{
  Dealing, deal_one, deal_loop, is_done, start_dealing, deal_rounds, generate_start_mahjong,
}
use mahjong_server.Pool.Draw.{flowers, IsPlain, whole, DealtOne, deal_one_lem}

-- How many tiles the seat `p` has when `t` have been dealt, seat by seat from the banker on.
abbrev pub share : ℕ → ℕ → ℕ → ℕ
share banker t p = (t + 3 - (p + 4 - banker) % 4) / 4

-- The state when `t` tiles have been dealt from `pool`.
pub record Dealt (banker : ℕ) (pool : List ℕ) (t : ℕ) (s : Dealing) : Type 0 where
  pub turn : s.assign ≡ (banker + t) % 4
  pub hand_seats : length s.hands ≡ 4
  pub hua_seats : length s.huas ≡ 4
  pub shares : (p : ℕ) → p < 4 → length (get_or s.hands p []) ≡ share banker t p
  pub kept : (x : ℕ) → whole x s ≡ count x pool
  pub plain : All IsPlain s.hands
  pub enough : deal_rounds + flowers s.pool ≤ length s.pool + t

share-suc :
    (banker t p : ℕ)
    → banker < 4
    → p < 4
    → share banker (t + 1) p ≡ (if p == (banker + t) % 4 then 1 else 0) + share banker t p
share-suc banker t p h k = ground arith

Dealt-step :
    (banker t : ℕ) (pool : List ℕ) (s u : Dealing)
    → banker < 4
    → Dealt banker pool t s
    → DealtOne s u
    → Dealt banker pool (t + 1) (record u { assign = (u.assign + 1) % 4 })
Dealt-step banker t pool s u h v o = record {
  turn = omega (arith, v.turn, o.assign_same);
  hand_seats = o.seats.0 ∙ v.hand_seats;
  hua_seats = o.seats.1 ∙ v.hua_seats;
  shares = λ p k. ground (arith, o.grown p, v.turn, v.shares p k, share-suc banker t p h k);
  kept = λ x. o.kept x ∙ v.kept x;
  plain = o.plain v.plain;
  enough = omega (arith, v.enough, o.drawn);
}

-- What a finished deal is: fourteen tiles for the banker, thirteen for each of the others, no flower
-- among them, and every tile of the pool still in the pool, in a hand or aside.
pub record IsFairDeal (banker : ℕ) (pool : List ℕ) (s : Dealing) : Type 0 where
  pub sizes : (p : ℕ) → p < 4 → length (get_or s.hands p []) ≡ (if p == banker then 14 else 13)
  pub kept : (x : ℕ) → whole x s ≡ count x pool
  pub plain : All IsPlain s.hands

-- The test that ends the loop, when the seat at turn has been given its tile.
is_done-last :
    (banker t : ℕ) (u : Dealing)
    → banker < 4
    → t < 53
    → u.assign ≡ (banker + t) % 4
    → length (get_or u.hands u.assign []) ≡ share banker (t + 1) u.assign
    → (is_done banker u && u.assign == banker) ≡ (t == 52)
is_done-last banker t u h k e f = ground arith

deal_loop_stop :
    (fuel banker : ℕ) (s u : Dealing)
    → deal_one (length s.pool + 1) s ≡ some u
    → (is_done banker u && u.assign == banker) ≡ true
    → deal_loop (suc fuel) banker s ≡ some u
unfolding deal_loop
deal_loop_stop fuel banker s u run stop = rw (run, deal_loop) (rw stop refl)

deal_loop_next :
    (fuel banker : ℕ) (s u : Dealing)
    → deal_one (length s.pool + 1) s ≡ some u
    → (is_done banker u && u.assign == banker) ≡ false
    → deal_loop (suc fuel) banker s
      ≡ deal_loop fuel banker (record u { assign = (u.assign + 1) % 4 })
unfolding deal_loop
deal_loop_next fuel banker s u run stop = rw (run, deal_loop) (rw stop refl)

-- What one round does, the test that follows it included.
round_lem :
    (banker t : ℕ) (pool : List ℕ) (s : Dealing)
    → banker < 4
    → t < 53
    → Dealt banker pool t s
    → (u : Dealing) × (deal_one (length s.pool + 1) s ≡ some u)
      × ((is_done banker u && u.assign == banker) ≡ (t == 52))
      × Dealt banker pool (t + 1) (record u { assign = (u.assign + 1) % 4 })
round_lem banker t pool s h k v =
    let (u, run, o) =
      deal_one_lem (length s.pool + 1) s (omega arith) (omega (arith, v.enough))
        (omega (arith, v.turn, v.hand_seats)) (omega (arith, v.turn, v.hua_seats)) in
    let w = Dealt-step banker t pool s u h v o in
    let turn : u.assign ≡ (banker + t) % 4 = o.assign_same ∙ v.turn in
    (u, run, is_done-last banker t u h k turn (w.shares u.assign (omega arith)), w)

deal_loop_lem :
    (fuel banker t : ℕ) (pool : List ℕ) (s : Dealing)
    → banker < 4
    → t + suc fuel ≡ 53
    → Dealt banker pool t s
    → (u : Dealing) × (deal_loop (suc fuel) banker s ≡ some u) × IsFairDeal banker pool u
deal_loop_lem zero banker t pool s h k v =
    let (u, run, test, w) = round_lem banker t pool s h (omega arith) v in
    (
      u,
      deal_loop_stop 0 banker s u run (ground arith),
      record { sizes = λ p l. ground (arith, w.shares p l); kept = w.kept; plain = w.plain },
    )
deal_loop_lem (suc fuel) banker t pool s h k v =
    let (u, run, test, w) = round_lem banker t pool s h (omega arith) v in
    let (z, rest, fair) =
      deal_loop_lem fuel banker (t + 1) pool (record u { assign = (u.assign + 1) % 4 }) h
        (omega arith) w in
    (z, deal_loop_next (suc fuel) banker s u run (ground arith) ∙ rest, fair)

empty_hand :
    (banker p : ℕ)
    → banker < 4
    → p < 4
    → length (get_or {A = List ℕ} (replicate 4 []) p []) ≡ share banker 0 p
empty_hand banker zero h k = omega arith
empty_hand banker (suc zero) h k = omega arith
empty_hand banker (suc (suc zero)) h k = omega arith
empty_hand banker (suc (suc (suc zero))) h k = omega arith
empty_hand banker (suc (suc (suc (suc p)))) h k = absurd (omega arith)

-- From a pool with at least 53 tiles that are no flowers, and with a banker at one of the four seats,
-- the deal comes to its end; then the banker has fourteen tiles and each other seat thirteen, no
-- flower is in a hand, and no tile of the pool is lost or made up.
pub generate_start_mahjong_lem :
    (banker : ℕ) (pool : List ℕ)
    → banker < 4
    → 53 + flowers pool ≤ length pool
    → (s : Dealing) × (generate_start_mahjong banker pool ≡ some s) × IsFairDeal banker pool s
unfolding generate_start_mahjong
generate_start_mahjong_lem banker pool h k =
    deal_loop_lem 52 banker 0 pool (start_dealing banker pool) h refl (record {
      turn = omega arith;
      hand_seats = refl;
      hua_seats = refl;
      shares = λ p l. empty_hand banker p h l;
      kept = λ x. omega arith;
      plain = (tt, (tt, (tt, (tt, tt))));
      enough = omega arith;
    })
