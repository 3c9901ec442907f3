-- ===== src/Pool.antt =====
-- The tile pool and the deal: Room::resetMahjongPool, Room::requestGet and Room::generateStartMahjong
-- of Server/Game/Room/Room.cpp, and MathUtility::randomInt. A vector is a list whose last element is
-- the vector's back. `rand` stands for the C library's: its result at the k-th call of a shuffle.
pub mod Lists
pub mod Shuffle
pub mod Contents
pub mod Draw
pub mod Deal
use mahjong_server.Common.{
  ℕ, zero, suc, ◌+◌, ◌-◌, ◌%◌, Bool, true, false, ◌&&◌, List, [], ◌∷◌, ◌++◌, Option, none, some,
  ◌==◌, leb, if◌then◌else◌, length, get_or, set, replicate, erase_idx,
}
use mahjong_server.Tile.{
  max_mahjong_count, max_single_count, max_feng_count, max_hua_count, m_feng_dong, m_hua_chun,
  m_max, is_hua, max_player, max_hand_in_count,
}

-- MathUtility::randomInt, `r` being what rand() returns.
abbrev pub random_int : ℕ → ℕ → ℕ → ℕ
random_int min_int max_int r =
    if leb max_int min_int then min_int else r % (max_int - min_int + 1) + min_int

-- The nested loops that push `copies` tiles of each of `kinds` kinds from `first` on.
pub tiles_from : (kinds first copies : ℕ) → List ℕ
tiles_from zero first copies = []
tiles_from (suc kinds) first copies = replicate copies first ++ tiles_from kinds (first + 1) copies

-- The shuffling loop: `rounds` left, `i` done, a random tile of `temp` to index `i`, the last tile of
-- `temp` to the gap.
pub shuffle_from : (ℕ → ℕ) → ℕ → ℕ → ℕ → List ℕ → List ℕ → List ℕ
shuffle_from rand mahjong_count zero i pool temp = pool
shuffle_from rand mahjong_count (suc rounds) i pool temp =
    let rand_index = random_int 0 (length temp - 1) (rand i) in
    let pool' = set pool i (get_or temp rand_index m_max) in
    let filled = set temp rand_index (get_or temp (mahjong_count - i - 1) m_max) in
    shuffle_from rand mahjong_count rounds (i + 1) pool' (erase_idx filled (length filled - 1))

pub shuffle : (ℕ → ℕ) → List ℕ → List ℕ
shuffle rand pool = shuffle_from rand (length pool) (length pool) 0 pool pool

abbrev pub fill_pool : Bool → Bool → List ℕ → List ℕ
fill_pool feng hua pool =
    let plain = pool ++ tiles_from max_mahjong_count 0 max_single_count in
    let with_feng =
      if feng then plain ++ tiles_from max_feng_count m_feng_dong max_single_count else plain in
    if hua then with_feng ++ tiles_from max_hua_count m_hua_chun 1 else with_feng

unfoldable pub reset_mahjong_pool : (ℕ → ℕ) → Bool → Bool → List ℕ → List ℕ
unfolding shuffle shuffle_from tiles_from
reset_mahjong_pool rand feng hua pool = shuffle rand (fill_pool feng hua pool)

-- requestGet: the tile at the back, or M_MAX when there is none.
unfoldable pub request_get : List ℕ → ℕ × List ℕ
request_get pool =
    if length pool == 0
    then (m_max, pool)
    else (get_or pool (length pool - 1) m_max, erase_idx pool (length pool - 1))

-- The state of the deal: `hands` and `huas` by seat, `assign` being mCurAssignPos.
pub record Dealing : Type 0 where
  pub pool : List ℕ
  pub hands : List (List ℕ)
  pub huas : List (List ℕ)
  pub assign : ℕ

pub push_at : List (List ℕ) → ℕ → ℕ → List (List ℕ)
push_at [] i x = []
push_at (l ∷ ls) zero x = (l ++ x ∷ []) ∷ ls
push_at (l ∷ ls) (suc i) x = l ∷ push_at ls i x

-- The inner loop: flowers go aside until a tile that is none comes to the hand. `none` is no fuel.
pub deal_one : ℕ → Dealing → Option Dealing
deal_one zero s = none
deal_one (suc fuel) s =
    let (mah, pool') = request_get s.pool in
    let again = deal_one fuel (record s { pool = pool'; huas = push_at s.huas s.assign mah }) in
    if is_hua mah
    then again
    else some (record s { pool = pool'; hands = push_at s.hands s.assign mah })

abbrev pub is_done : ℕ → Dealing → Bool
is_done banker s =
    let player_hand_in_count = length (get_or s.hands s.assign []) in
    if s.assign == banker
    then player_hand_in_count == max_hand_in_count
    else player_hand_in_count == max_hand_in_count - 1

-- The outer loop, round by round from seat to seat; it is left when the banker has enough.
pub deal_loop : ℕ → ℕ → Dealing → Option Dealing
deal_loop zero banker s = none
deal_loop (suc fuel) banker s = elim (deal_one (length s.pool + 1) s) [
  | none ↦ none
  | some t ↦
      let next = deal_loop fuel banker (record t { assign = (t.assign + 1) % max_player }) in
      if is_done banker t && t.assign == banker then some t else next
]

abbrev pub start_dealing : ℕ → List ℕ → Dealing
start_dealing banker pool = record {
  pool = pool;
  hands = replicate max_player [];
  huas = replicate max_player [];
  assign = banker;
}

-- The rounds that the deal takes: four for each of thirteen tiles, and the banker's last one.
abbrev pub deal_rounds : ℕ
deal_rounds = 53

-- generateStartMahjong from the place where mBankerPos is known to be a seat.
unfoldable pub generate_start_mahjong : ℕ → List ℕ → Option Dealing
generate_start_mahjong banker pool = deal_loop deal_rounds banker (start_dealing banker pool)

-- The list of players that it gives back beside the hands: from the banker on, seat by seat.
pub player_ids_from : (ℕ → ℕ) → ℕ → ℕ → List ℕ
player_ids_from guid_at zero cur_pos = []
player_ids_from guid_at (suc rounds) cur_pos =
    guid_at cur_pos ∷ player_ids_from guid_at rounds ((cur_pos + 1) % max_player)

unfoldable pub player_id_list : (ℕ → ℕ) → ℕ → List ℕ
player_id_list guid_at banker = player_ids_from guid_at max_player banker
