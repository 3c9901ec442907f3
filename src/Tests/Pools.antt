-- ===== src/Tests/Pools.antt =====
-- Pools of Server/Game/Room/Room.cpp, maps of Server/Frame/STL/txMap.h.
use mahjong_server.Common.{
  ℕ, ◌+◌, ◌*◌, ◌≡◌, true, ◌==◌, if◌then◌else◌, List, [], ◌∷◌, none, some, SameTiles, count, length,
  replicate, arith,
}
use mahjong_server.Pool.{Dealing, reset_mahjong_pool, shuffle, generate_start_mahjong}
use mahjong_server.Pool.Shuffle.{shuffle-SameTiles}
use mahjong_server.Pool.Contents.{full_set, reset_mahjong_pool_lem}
use mahjong_server.Pool.Deal.{IsFairDeal, generate_start_mahjong_lem}
use mahjong_server.Stl.TxMap.{find, insert, try_set, try_erase, value_or, is_found}
use mahjong_server.Stl.TxMap.Laws.{IsOrdered, writes_lem}

-- A rand() that counts.
abbrev counting : ℕ → ℕ
counting k = 7 * k + 3

shuffle-SameTiles_example : SameTiles (shuffle counting (5 ∷ 5 ∷ 34 ∷ 1 ∷ [])) (5 ∷ 5 ∷ 34 ∷ 1 ∷ [])
shuffle-SameTiles_example = shuffle-SameTiles counting (5 ∷ 5 ∷ 34 ∷ 1 ∷ [])

reset_mahjong_pool_example :
    ((x : ℕ) → count x (reset_mahjong_pool counting true true []) ≡ full_set x)
    × (length (reset_mahjong_pool counting true true []) ≡ 144)
reset_mahjong_pool_example = reset_mahjong_pool_lem counting

-- Fifty-five tiles, two of them flowers.
abbrev small_pool : List ℕ
small_pool = 34 ∷ 41 ∷ replicate 53 7

generate_start_mahjong_example :
    (s : Dealing) × (generate_start_mahjong 2 small_pool ≡ some s) × IsFairDeal 2 small_pool s
generate_start_mahjong_example =
    generate_start_mahjong_lem 2 small_pool (omega arith) (ground arith)

abbrev small_map : List (ℕ × ℕ)
small_map = (2, 20) ∷ (5, 50) ∷ []

writes_example :
    (find 3 (insert 3 30 small_map)
      ≡ (if 3 == 3 then some (value_or (find 3 small_map) 30) else find 3 small_map))
    × (find 3 (try_set 3 30 small_map) ≡ (if 3 == 3 then some 30 else find 3 small_map))
    × (find 3 (try_erase 3 small_map).1 ≡ (if 3 == 3 then none else find 3 small_map))
    × ((try_erase 3 small_map).0 ≡ is_found (find 3 small_map))
    × IsOrdered 0 (insert 3 30 small_map)
    × IsOrdered 0 (try_set 3 30 small_map)
    × IsOrdered 0 (try_erase 3 small_map).1
writes_example = writes_lem 3 3 30 small_map (ground arith)
