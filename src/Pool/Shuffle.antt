-- ===== src/Pool/Shuffle.antt =====
-- The shuffle gives back the tiles of the pool, whatever the random numbers are.
use mahjong_server.Common.{
  ℕ, zero, suc, ◌+◌, ◌-◌, ◌≤◌, ◌≡◌, refl, ◌∙◌, subst, List, [], ◌∷◌, arith, count, length,
  length-set, get_or, set, erase_idx, SameTiles,
}
use mahjong_server.Tile.{m_max}
use mahjong_server.Pool.{random_int, shuffle_from, shuffle}
use mahjong_server.Pool.Lists.{
  one_if, count-erase_idx, count-set, length-erase_idx, get_or-set_same, take, count-take-set,
  take-all,
}

random_int-lt : (n r : ℕ) → random_int 0 n r ≤ n
random_int-lt n r = ground arith

-- Filling the gap at `r` by the last tile and erasing the last takes out the tile at `r` alone.
fill_gap :
    (x r n : ℕ) (temp : List ℕ)
    → length temp ≡ suc n
    → r ≤ n
    → let filled = set temp r (get_or temp n m_max) in
      (count x (erase_idx filled n) + one_if (get_or temp r m_max) x ≡ count x temp)
      × (length (erase_idx filled n) ≡ n)
fill_gap x r n temp e h =
    let last = get_or temp n m_max in
    let filled = set temp r last in
    let len = length-set temp r last in
    let same = get_or-set_same m_max r n temp in
    let erased = count-erase_idx x m_max n filled (omega arith) in
    let erased' =
      subst (λ v. one_if v x + count x (erase_idx filled n) ≡ count x filled) same erased in
    (
      omega (arith, count-set x m_max r last temp (omega arith), erased'),
      omega (arith, length-erase_idx n filled (omega arith)),
    )

shuffle_from_lem :
    (rand : ℕ → ℕ) (x n rounds i : ℕ) (pool temp : List ℕ)
    → length pool ≡ n
    → i + rounds ≡ n
    → length temp ≡ rounds
    → count x (shuffle_from rand n rounds i pool temp) ≡ count x (take i pool) + count x temp
unfolding shuffle_from
shuffle_from_lem rand x n zero i pool [] p q r = rw (take-all i pool (omega arith)) (omega arith)
shuffle_from_lem rand x n zero i pool (y ∷ temp) p q r = absurd (omega arith)
shuffle_from_lem rand x n (suc rounds) i pool temp p q r =
    let k = random_int 0 (length temp - 1) (rand i) in
    let v = get_or temp k m_max in
    let filled = set temp k (get_or temp rounds m_max) in
    let back : n - i - 1 ≡ rounds = omega arith in
    let end : length filled - 1 ≡ rounds =
      omega (arith, length-set temp k (get_or temp rounds m_max)) in
    let bound : k ≤ rounds = omega (arith, random_int-lt (length temp - 1) (rand i)) in
    let (gone, left) = fill_gap x k rounds temp r bound in
    let plus : i + 1 ≡ suc i = omega arith in
    let taken : count x (take (i + 1) (set pool i v)) ≡ count x (take i pool) + one_if v x =
      rw plus (count-take-set x v i pool (omega arith)) in
    let rest =
      shuffle_from_lem rand x n rounds (i + 1) (set pool i v) (erase_idx filled rounds)
        (length-set pool i v ∙ p) (omega arith) left in
    rw (back, end) (omega (arith, rest, taken, gone))

-- The shuffled pool holds the tiles of the pool, each kind as often, whatever rand() returns.
pub shuffle-SameTiles : (rand : ℕ → ℕ) (pool : List ℕ) → SameTiles (shuffle rand pool) pool
unfolding shuffle
shuffle-SameTiles rand pool x =
    omega (
      arith,
      shuffle_from_lem rand x (length pool) (length pool) 0 pool pool refl (omega arith) refl,
    )
