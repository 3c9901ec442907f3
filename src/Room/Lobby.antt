-- ===== src/Room/Lobby.antt =====
-- Room.cpp and the commands of Server/Game/CommandSystem that call it: joining and leaving, getting
-- ready, and the start of a round.
pub mod Rounds
use mahjong_server.Common.{
  ℕ, ◌+◌, Bool, true, false, ◌&&◌, not, List, [], ◌∷◌, Option, none, some, ◌==◌, if◌then◌else◌,
  length, get_or,
}
use mahjong_server.Stl.TxMap.{insert, size}
use mahjong_server.Player.{CharacterData, get_mahjong, get_hua, clear_mahjong, reorder_mahjong}
use mahjong_server.Pool.{Dealing, generate_start_mahjong, player_id_list, random_int}
use mahjong_server.Room.State.{
  Room, Command, waiting, get_start, normal_gaming, modify, send, ready_changed, continue_game,
  leave_room, reorder, start_game, ◌>>=◌,
}
use mahjong_server.Room.Notify.{
  notify_all_player_other_join_room, notify_all_player_continue_game,
  notify_all_player_other_leave_room, notify_all_player_ready, notify_all_player_get_start_done,
  notify_all_player_mahjong_pool_size, player_ask_drop,
}
use mahjong_server.Room.Seats.{
  next_seat, next_from, is_full, get_member, get_member_by_position, is_all_player_ready,
  is_all_player_get_start_done, add_player, remove_player, set_banker, set_mahjong_state,
}
use mahjong_server.Room.EndGame.{all_seated}

pub data JoinRoomResult : Type 0 where
  jrr_success jrr_full jrr_no_room jrr_player_in_room : JoinRoomResult

-- The first player opens the room and is the banker.
unfoldable pub join_room : ℕ → Room → Room
unfolding add_player set_mahjong_state set_banker notify_all_player_other_join_room size
join_room player r =
    let s = add_player player r in
    notify_all_player_other_join_room player (
      if size s.player_list == 1
      then set_banker player (set_mahjong_state waiting s)
      else modify player (λ c. record c { banker = false }) s)

abbrev pub is_member : Option ℕ → Bool
is_member none = false
is_member (some p) = true

-- CommandRoomNotifyPlayerJoin::execute
unfoldable pub notify_player_join : ℕ → Room → JoinRoomResult × Room
unfolding is_full get_member join_room
notify_player_join player r =
    if is_full r
    then (jrr_full, r)
    else if is_member (get_member (r.players player).guid r)
    then (jrr_player_in_room, r)
    else (jrr_success, join_room player r)

abbrev pub find_next_player : Option ℕ → Room → Option ℕ
find_next_player position r =
    if size r.player_list == 0 then none else next_from 4 (next_seat position) r.position_list

abbrev pub set_banker_if : Option ℕ → Room → Room
set_banker_if none r = r
set_banker_if (some p) r = set_banker p r

-- Whether nobody with a connection is left.
pub is_empty : (ℕ → CharacterData) → List (ℕ × ℕ) → Bool
is_empty players [] = true
is_empty players ((guid, p) ∷ l) = if (players p).has_client then false else is_empty players l

abbrev pub forget_room : CharacterData → CharacterData
forget_room c = clear_mahjong (record c { room_id = none; banker = false; position = none })

-- The Boolean says whether the room is destroyed. Where only robots are left behind a leaving player,
-- a command for a room is pushed to each robot, with no player in it: undefined behaviour.
unfoldable pub player_leave_room : ℕ → Bool → Room → Option (Bool × Room)
unfolding remove_player set_banker next_from clear_mahjong is_empty
    notify_all_player_other_leave_room size
player_leave_room player notify_other_player r =
    let pre_position = (r.players player).position in
    let removed = remove_player player (send player leave_room r) in
    let s = modify player forget_room (
      if (r.players player).banker
      then set_banker_if (find_next_player pre_position removed) removed
      else removed) in
    if not (is_empty s.players s.player_list)
    then some
        (false, if notify_other_player then notify_all_player_other_leave_room player s else s)
    else if not (s.players player).is_player
    then some (false, s)
    else if size s.player_list == 0
    then some (true, s)
    else none

abbrev pub choose : ℕ → Bool → Room → Room
choose player continue r =
    let s =
      modify player clear_mahjong
        (record r { player_choose_list = insert player continue r.player_choose_list }) in
    if size s.player_choose_list == s.max_player_count then set_mahjong_state waiting s else s

-- A room that is destroyed is still written to: undefined behaviour.
abbrev pub choose_after : ℕ → Bool × Room → Option Room
choose_after player (true, r) = none
choose_after player (false, r) = some (choose player false r)

unfoldable pub player_continue_game : ℕ → Bool → Room → Option Room
unfolding player_leave_room notify_all_player_continue_game set_mahjong_state clear_mahjong insert
    size
player_continue_game player true r =
    some (choose player true (notify_all_player_continue_game player (send player continue_game r)))
player_continue_game player false r = player_leave_room player true r >>= choose_after player

-- Room::getBanker; a banker who is NULL is read through.
abbrev pub get_banker : Room → Option ℕ
get_banker r = r.banker_pos >>= λ position. get_member_by_position position r

unfoldable pub all_player_get_start_done : Room → Option Room
unfolding notify_all_player_mahjong_pool_size notify_all_player_get_start_done set_mahjong_state
    player_ask_drop get_member_by_position
all_player_get_start_done r =
    let s = set_mahjong_state normal_gaming (
      notify_all_player_get_start_done
        (notify_all_player_mahjong_pool_size (length r.mahjong_pool) r)) in
    get_banker s >>= λ banker. some (player_ask_drop banker s)

-- CommandCharacterGetStartDone::execute
abbrev pub get_start_done_once : ℕ → Room → Room
get_start_done_once player r =
    if (r.players player).get_start_done
    then r
    else send player reorder
        (modify player (λ c. reorder_mahjong (record c { get_start_done = true })) r)

-- CommandRoomPlayerGetStartDone::execute
unfoldable pub player_get_start_done : ℕ → Room → Option Room
unfolding is_full is_all_player_get_start_done all_player_get_start_done reorder_mahjong
player_get_start_done player r =
    let s = get_start_done_once player r in
    if is_full s && is_all_player_get_start_done s then all_player_get_start_done s else some s

abbrev pub get_each : List ℕ → CharacterData → CharacterData
get_each [] c = c
get_each (mah ∷ mahs) c = get_each mahs (get_mahjong mah c)

abbrev pub get_each_hua : List ℕ → CharacterData → CharacterData
get_each_hua [] c = c
get_each_hua (hua ∷ huas) c = get_each_hua huas (get_hua hua c)

-- The loop of CommandRoomStartGame that gives the player at index `i` of the list the hand at index
-- `i` and the flowers at index `i`.
pub hand_out : ℕ → List ℕ → List (List ℕ) → List (List ℕ) → Room → Option Room
hand_out i [] hands huas r = some r
hand_out i (guid ∷ guids) hands huas r = elim (get_member guid r) [
  | none ↦ none
  | some p ↦
      hand_out (i + 1) guids hands huas
        (modify p (λ c. get_each_hua (get_or huas i []) (get_each (get_or hands i []) c)) r)
]

-- The loop of CommandRoomStartGame that tells the players; a robot answers at once.
pub tell_start : Command → List (ℕ × ℕ) → Room → Option Room
tell_start command [] r = some r
tell_start command ((guid, p) ∷ l) r =
    (let s = send p command (modify p (λ c. record c { ready = false }) r) in
      if (s.players p).is_player then some s else player_get_start_done p s)
    >>= tell_start command l

abbrev pub guid_at : Room → ℕ → ℕ
guid_at r position = elim (get_member_by_position position r) [
  | none ↦ 0
  | some p ↦ (r.players p).guid
]

-- generateStartMahjong on a room: without a banker nothing is dealt, and an empty seat is read
-- through.
abbrev pub deal_at : Option ℕ → Room → Option (List ℕ × Room × Dealing)
deal_at none r = some ([], r, record { pool = r.mahjong_pool; hands = []; huas = []; assign = 0 })
deal_at (some banker) r = do
  ps ← all_seated r.position_list
  dealt ← generate_start_mahjong banker r.mahjong_pool
  some (
    player_id_list (guid_at r) banker,
    record r { mahjong_pool = dealt.pool; cur_assign_pos = some dealt.assign },
    dealt,
  )

-- The two dice are thrown before the pool is shuffled.
abbrev pub dice : ℕ → Room → ℕ
dice k r = random_int 0 5 (r.rand k)

-- CommandRoomStartGame::execute
unfoldable pub start_game_now : Room → Option Room
unfolding set_mahjong_state get_member get_member_by_position generate_start_mahjong player_id_list
    hand_out tell_start all_seated
start_game_now r = do
  let s = set_mahjong_state get_start (record r { rand = λ k. r.rand (k + 2) })
  dealt ← deal_at s.banker_pos s
  t ← hand_out 0 dealt.0 dealt.2.hands dealt.2.huas dealt.1
  tell_start (start_game (dice 0 r) (dice 1 r) dealt.0 dealt.2.hands dealt.2.huas t.banker_pos)
      t.player_list t

abbrev pub is_same : Bool → Bool → Bool
is_same true b = b
is_same false b = not b

-- CommandCharacterReady::execute
abbrev pub set_ready : ℕ → Bool → Room → Room
set_ready player ready r =
    if is_same (r.players player).ready ready
    then r
    else send player (ready_changed ready) (modify player (λ c. record c { ready = ready }) r)

unfoldable pub player_ready : ℕ → Bool → Room → Option Room
unfolding notify_all_player_ready is_full is_all_player_ready start_game_now
player_ready player ready r =
    let s = notify_all_player_ready player ready (set_ready player ready r) in
    if is_full s && is_all_player_ready s then start_game_now s else some s
