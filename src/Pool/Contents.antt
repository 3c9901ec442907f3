-- ===== src/Pool/Contents.antt =====
-- What the pool holds when the deal begins.
use mahjong_server.Common.{
  ℕ, zero, suc, ◌+◌, ◌≡◌, refl, ◌∙◌, true, ◌&&◌, [], ◌++◌, arith, ◌==◌, leb, ltb, if◌then◌else◌,
  count, count-append, length, replicate,
}
use mahjong_server.Hand.Decides.{length_of_SameTiles}
use mahjong_server.Pool.{tiles_from, fill_pool, shuffle, reset_mahjong_pool}
use mahjong_server.Pool.Shuffle.{shuffle-SameTiles}

count-replicate : (n a b : ℕ) → count a (replicate n b) ≡ (if b == a then n else 0)
count-replicate zero a b = ground arith
count-replicate (suc n) a b = ground (arith, count-replicate n a b)

count-tiles_from :
    (x kinds first copies : ℕ)
    → count x (tiles_from kinds first copies)
      ≡ (if leb first x && ltb x (first + kinds) then copies else 0)
unfolding tiles_from
count-tiles_from x zero first copies = ground arith
count-tiles_from x (suc kinds) first copies = ground (
  arith,
  count-append x (replicate copies first) (tiles_from kinds (first + 1) copies),
  count-replicate copies x first,
  count-tiles_from x kinds (first + 1) copies,
)

-- How many tiles of a kind a full set has.
abbrev pub full_set : ℕ → ℕ
full_set x = if ltb x 34 then 4 else if ltb x 42 then 1 else 0

count-fill_pool : (x : ℕ) → count x (fill_pool true true []) ≡ full_set x
count-fill_pool x = ground (
  arith,
  count-append x (tiles_from 27 0 4 ++ tiles_from 7 27 4) (tiles_from 8 34 1),
  count-append x (tiles_from 27 0 4) (tiles_from 7 27 4),
  count-tiles_from x 27 0 4,
  count-tiles_from x 7 27 4,
  count-tiles_from x 8 34 1,
)

length-fill_pool : length (fill_pool true true []) ≡ 144
unfolding tiles_from
length-fill_pool = refl

-- Reset from empty, with winds and flowers, the pool holds four tiles of each of the 34 plain kinds
-- and one of each of the 8 flowers, 144 in all, and no other, whatever rand() returns.
pub reset_mahjong_pool_lem :
    (rand : ℕ → ℕ)
    → ((x : ℕ) → count x (reset_mahjong_pool rand true true []) ≡ full_set x)
      × (length (reset_mahjong_pool rand true true []) ≡ 144)
unfolding reset_mahjong_pool
reset_mahjong_pool_lem rand =
    let same = shuffle-SameTiles rand (fill_pool true true []) in
    (
      λ x. same x ∙ count-fill_pool x,
      length_of_SameTiles (shuffle rand (fill_pool true true [])) (fill_pool true true []) same
          ∙ length-fill_pool,
    )
