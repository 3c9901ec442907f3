-- ===== src/Room/Seats.antt =====
-- Room.cpp and Room.h: the seats, the banker and the phases of a room.
pub mod Order
use mahjong_server.Common.{
  ℕ, zero, suc, ◌+◌, ◌-◌, ◌%◌, Bool, true, false, not, List, [], ◌∷◌, Option, none, some, ◌==◌, leb,
  if◌then◌else◌, length,
}
use mahjong_server.Stl.TxMap.{find, insert, erase, contains, size, try_get}
use mahjong_server.Player.{CharacterData}
use mahjong_server.Pool.{reset_mahjong_pool, fill_pool}
use mahjong_server.Room.State.{Room, PlayState, waiting, get_start, ending, WaitActionInfo, modify}
use mahjong_server.Room.Notify.{notify_all_player_banker, notify_all_player_mahjong_pool_size}

-- The seat behind a seat, and behind -1.
abbrev pub next_seat : Option ℕ → ℕ
next_seat none = 0
next_seat (some n) = (n + 1) % 4

unfoldable pub is_full : Room → Bool
unfolding size
is_full r = leb r.max_player_count (size r.player_list)

unfoldable pub get_member : ℕ → Room → Option ℕ
unfolding find
get_member player_id r = find player_id r.player_list

abbrev pub seat_of : Option (Option ℕ) → Option ℕ
seat_of none = none
seat_of (some o) = o

unfoldable pub get_member_by_position : ℕ → Room → Option ℕ
unfolding find
get_member_by_position position r = seat_of (find position r.position_list)

pub all_members : (CharacterData → Bool) → (ℕ → CharacterData) → List (ℕ × ℕ) → Bool
all_members test players [] = true
all_members test players ((guid, p) ∷ l) =
    if not (test (players p)) then false else all_members test players l

unfoldable pub is_all_player_ready : Room → Bool
unfolding all_members
is_all_player_ready r = all_members (λ c. c.ready) r.players r.player_list

unfoldable pub is_all_player_get_start_done : Room → Bool
unfolding all_members
is_all_player_get_start_done r = all_members (λ c. c.get_start_done) r.players r.player_list

-- The loop of addPlayer: the first empty seat, and the seats with the player in it.
pub take_seat : ℕ → List (ℕ × Option ℕ) → Option ℕ × List (ℕ × Option ℕ)
take_seat player [] = (none, [])
take_seat player ((k, none) ∷ seats) = (some k, (k, some player) ∷ seats)
take_seat player ((k, some p) ∷ seats) =
    let (at, rest) = take_seat player seats in (at, (k, some p) ∷ rest)

-- Where no seat is empty the position stays -1, and the source logs it.
unfoldable pub add_player : ℕ → Room → Room
unfolding insert take_seat
add_player player r =
    let (at, seats) = take_seat player r.position_list in
    modify player (λ c. record c { position = at })
      (record r {
        player_list = insert (r.players player).guid player r.player_list;
        position_list = seats;
      })

abbrev pub is_at : ℕ → Option ℕ → Bool
is_at player none = false
is_at player (some p) = p == player

-- The seat at the player's position is emptied, if the player is there.
pub free_seat : ℕ → ℕ → List (ℕ × Option ℕ) → List (ℕ × Option ℕ)
free_seat player position [] = []
free_seat player position ((k, o) ∷ seats) =
    if k == position
    then (k, if is_at player o then none else o) ∷ seats
    else (k, o) ∷ free_seat player position seats

abbrev pub free_position : ℕ → Option ℕ → List (ℕ × Option ℕ) → List (ℕ × Option ℕ)
free_position player none seats = seats
free_position player (some position) seats = free_seat player position seats

unfoldable pub remove_player : ℕ → Room → Room
unfolding erase free_seat
remove_player player r =
    modify player (λ c. record c { position = none })
      (record r {
        player_list = erase (r.players player).guid r.player_list;
        position_list = free_position player (r.players player).position r.position_list;
      })

-- The `while (true)` of findNextPlayer, which goes round the table; `none` is one full round with no
-- player, where the source would not stop.
unfoldable pub next_from : ℕ → ℕ → List (ℕ × Option ℕ) → Option ℕ
next_from zero k seats = none
next_from (suc rounds) k seats = elim (seat_of (find k seats)) [
  | some p ↦ some p
  | none ↦ next_from rounds ((k + 1) % 4) seats
]

abbrev pub is_waiting : PlayState → Bool
is_waiting waiting = true
is_waiting _ = false

unfoldable pub set_banker : ℕ → Room → Room
unfolding notify_all_player_banker
set_banker player r =
    let named = modify player (λ c. record c { banker = true }) r in
    let told =
      if is_waiting r.play_state
      then notify_all_player_banker (r.players player).guid named
      else named in
    record told { banker_pos = (r.players player).position }

unfoldable pub clear_wait_list : Room → Room
clear_wait_list r = record r { wait_list = [] }

unfoldable pub reset : Room → Room
unfolding clear_wait_list
reset r = record (clear_wait_list (record r { mahjong_pool = [] })) {
  player_choose_list = [];
  banker_pos = none;
  cur_assign_pos = none;
}

-- The shuffle calls rand() once for every tile but the last.
abbrev pub start_pool : Room → Room
start_pool r = record r {
  mahjong_pool = reset_mahjong_pool r.rand true true r.mahjong_pool;
  rand = λ k. r.rand (k + (length (fill_pool true true r.mahjong_pool) - 1));
}

abbrev pub enter_state : PlayState → Room → Room
enter_state waiting r = reset r
enter_state get_start r =
    let s = start_pool r in notify_all_player_mahjong_pool_size (length s.mahjong_pool) s
enter_state ending r = clear_wait_list r
enter_state _ r = r

unfoldable pub set_mahjong_state : PlayState → Room → Room
unfolding reset clear_wait_list notify_all_player_mahjong_pool_size reset_mahjong_pool
set_mahjong_state state r = enter_state state (record r { play_state = state })
