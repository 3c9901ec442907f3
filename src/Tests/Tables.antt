-- ===== src/Tests/Tables.antt =====
-- Tables of Server/Game/Room/Room.cpp.
use mahjong_server.Common.{
  ℕ, zero, suc, ◌+◌, ◌<◌, ◌≡◌, ◌≢◌, ◌⊎◌, refl, true, false, ◌==◌, if◌then◌else◌, List, [], ◌∷◌,
  ◌++◌, replicate, none, some, arith,
}
use mahjong_server.Tile.{hu, peng, pass, rank, normal, qingyise}
use mahjong_server.Common.Int.{pos, ◌-ℤ◌}
use mahjong_server.Player.{CharacterData}
use mahjong_server.Stl.TxMap.{find}
use mahjong_server.Room.Manager.{no_rooms, create_room, get_room, destroy_room}
use mahjong_server.Room.Manager.Ids.{ManagerOp, IsManager, manage_all, create_room_lem}
use mahjong_server.Room.State.{
  other_drop, other_get_tile, other_gang, other_peng, other_pass, other_ask_drop, other_get_hua,
  other_ask_action, other_reorder, all_get_start_done, pool_size, waiting, Room, WaitActionInfo,
  MahjongAction, HuInfo, wait_for_action, normal_gaming, new_room,
}
use mahjong_server.Room.Seats.{
  add_player, remove_player, set_mahjong_state, clear_wait_list, get_member_by_position,
}
use mahjong_server.Room.Seats.Order.{add_player_lem, remove_player-add_player}
use mahjong_server.Room.EndGame.{end_game, all_seated}
use mahjong_server.Room.EndGame.Money.{IsWinOf}
use mahjong_server.Room.EndGame.Close.{Distinct, IsClosed, changes, end_game_lem}
use mahjong_server.Room.EndGame.Amounts.{single_win_lem}
use mahjong_server.Room.Turn.{
  action, hu_action, highest_action, carry_out, request_mahjong, player_confirm_action, find_action,
}
use mahjong_server.Room.Notify.{
  notify_all_player_drop, notify_all_player_get_mahjong, notify_all_player_gang,
  notify_all_player_peng, notify_all_player_pass, notify_all_player_ask_drop,
  notify_all_player_get_hua, notify_all_player_ask_action, notify_all_player_reorder_mahjong,
  notify_all_player_get_start_done, notify_all_player_mahjong_pool_size,
}
use mahjong_server.Room.Notify.Receivers.{heard, seats_of, other_seats_of, notify_lem}
use mahjong_server.Room.Lobby.{start_game_now}
use mahjong_server.Room.Lobby.Rounds.{start_game_now-waiting}
use mahjong_server.Room.Turn.{request_drop}
use mahjong_server.Room.Turn.Drop.{HasDropped, Continues, request_drop_lem}
use mahjong_server.Room.Turn.Draw.{HasDrawn, request_mahjong_lem}
use mahjong_server.Room.Turn.Confirm.{IsWon, confirmed, confirm-win}
use mahjong_server.Room.Turn.Priority.{AllFrom, IsChoice, SomeWait, highest_action_lem}
use mahjong_server.Room.Turn.Choice.{IsRunning, after_confirm, player_confirm_action_lem}

abbrev player_of : ℕ → CharacterData
player_of n = record {
  guid = 100 + n;
  banker = n == 0;
  position = some n;
  room_id = some 1;
  ready = false;
  get_start_done = true;
  hand_in = 3 ∷ 3 ∷ 5 ∷ 6 ∷ [];
  drop_list = [];
  peng_gang_list = [];
  hua_list = [];
  is_player = true;
  has_client = true;
}

abbrev four : List ℕ
four = 0 ∷ 1 ∷ 2 ∷ 3 ∷ []

-- Player 0 has dropped a tile 3: player 1 may win with it or take it, and player 2 may take it and
-- has already passed.
abbrev info_1 : WaitActionInfo
info_1 = record {
  player = 1;
  dropped_player = 0;
  action_list = hu_action 1 0 3 (normal ∷ []) ∷ action peng 1 0 3 ∷ action pass 1 0 3 ∷ [];
  mahjong = 3;
  confirmed_action = none;
}

abbrev info_2 : WaitActionInfo
info_2 = record {
  player = 2;
  dropped_player = 0;
  action_list = action peng 2 0 3 ∷ action pass 2 0 3 ∷ [];
  mahjong = 3;
  confirmed_action = some (action pass 2 0 3);
}

abbrev table : Room
table = record (new_room 1 player_of (λ k. k)) {
  player_list = (100, 0) ∷ (101, 1) ∷ (102, 2) ∷ (103, 3) ∷ [];
  position_list = (0, some 0) ∷ (1, some 1) ∷ (2, some 2) ∷ (3, some 3) ∷ [];
  play_state = wait_for_action;
  mahjong_pool = 8 ∷ 5 ∷ 34 ∷ [];
  banker_pos = some 0;
  wait_list = (1, info_1) ∷ (2, info_2) ∷ [];
}

table-all_seated : all_seated table.position_list ≡ some four
unfolding all_seated
table-all_seated = refl

request_mahjong_example :
    (s : Room) × (request_mahjong (some 1) table ≡ some s) × HasDrawn 1 table s
request_mahjong_example = request_mahjong_lem 1 table four refl table-all_seated

abbrev win_of_1 : HuInfo
win_of_1 = record { hu_player = 1; dropped_player = 0; mahjong = 3; hu_list = normal ∷ [] }

four-Distinct : Distinct four
four-Distinct p = ground arith

win_of_1-IsWinOf : IsWinOf four 1 win_of_1
win_of_1-IsWinOf = record { same = refl; winner_seated = omega arith; dropper_seated = omega arith }

end_game_example :
    (s : Room) × (end_game ((1, win_of_1) ∷ []) table ≡ some s)
    × IsClosed ((1, win_of_1) ∷ []) four table s
end_game_example =
    end_game_lem ((1, win_of_1) ∷ []) table four table-all_seated four-Distinct
      (win_of_1-IsWinOf, tt)

-- A win of two kinds.
abbrev double_win : HuInfo
double_win = record win_of_1 { hu_list = normal ∷ qingyise ∷ [] }

double_win-IsWinOf : IsWinOf four 1 double_win
double_win-IsWinOf = record {
  same = refl;
  winner_seated = omega arith;
  dropper_seated = omega arith;
}

single_win_example : find 0 (changes four ((1, double_win) ∷ [])) ≡ some (pos 0 -ℤ pos 200)
single_win_example =
    single_win_lem four 1 double_win 0 four-Distinct double_win-IsWinOf (omega arith)

confirm-win_example : (s : Room) × (player_confirm_action 1 hu table ≡ some s) × IsWon four table s
unfolding find find_action
confirm-win_example =
    confirm-win 1 table info_1 (hu_action 1 0 3 (normal ∷ [])) four refl refl table-all_seated
      four-Distinct (ground arith)

table-IsRunning : IsRunning four table
unfolding get_member_by_position find
table-IsRunning = record {
  all_there = table-all_seated;
  at_seat = λ n h. at n h;
  tiles_only = refl;
}
  where
    at : (n : ℕ) → n < 4 → (q : ℕ) × (get_member_by_position n table ≡ some q)
    at zero h = (0, refl)
    at (suc zero) h = (1, refl)
    at (suc (suc zero)) h = (2, refl)
    at (suc (suc (suc zero))) h = (3, refl)
    at (suc (suc (suc (suc n)))) h = absurd (omega arith)

abbrev after_peng : List (ℕ × WaitActionInfo)
after_peng = confirmed 1 info_1 (action peng 1 0 3) table.wait_list

player_confirm_action_example :
    (SomeWait after_peng
      × (player_confirm_action 1 peng table
          ≡ some (after_confirm 1 info_1 (action peng 1 0 3) table)))
    ⊎ ((b : MahjongAction) × (q : ℕ) × (v : WaitActionInfo) × (s : Room) × IsChoice b q after_peng
        × AllFrom (rank b.type) after_peng
        × (find q after_peng ≡ some v)
        × (carry_out b.type v
              (set_mahjong_state normal_gaming (after_confirm 1 info_1 (action peng 1 0 3) table))
            ≡ some s)
        × (player_confirm_action 1 peng table ≡ some (clear_wait_list s)))
unfolding find find_action
player_confirm_action_example =
    player_confirm_action_lem 1 peng table info_1 (action peng 1 0 3) four refl refl refl
      (refl, (refl, tt)) table-IsRunning

highest_action_example :
    ((highest_action table.wait_list none ≡ none) × SomeWait table.wait_list)
    ⊎ ((a : MahjongAction) × (q : ℕ) × (highest_action table.wait_list none ≡ some (some (a, q)))
        × IsChoice a q table.wait_list
        × AllFrom (rank a.type) table.wait_list)
highest_action_example = highest_action_lem 1 info_1 ((2, info_2) ∷ [])

-- A table with one player, at the first seat.
abbrev half_empty : Room
half_empty = record table {
  player_list = (100, 0) ∷ [];
  position_list = (0, some 0) ∷ (1, none) ∷ (2, none) ∷ (3, none) ∷ [];
}

add_player_example :
    ((k : ℕ) × (((add_player 5 half_empty).players 5).position ≡ some k)
      × (find k half_empty.position_list ≡ some none)
      × ((j : ℕ) → j < k → find j half_empty.position_list ≢ some none)
      × ((j : ℕ)
          → find j (add_player 5 half_empty).position_list
            ≡ (if j == k then some (some 5) else find j half_empty.position_list)))
    ⊎ ((((add_player 5 half_empty).players 5).position ≡ none)
        × ((add_player 5 half_empty).position_list ≡ half_empty.position_list)
        × ((j : ℕ) → find j half_empty.position_list ≢ some none))
add_player_example = add_player_lem 5 half_empty (ground arith)

remove_player_example :
    ((remove_player 5 (add_player 5 half_empty)).position_list ≡ half_empty.position_list)
    × ((remove_player 5 (add_player 5 half_empty)).player_list ≡ half_empty.player_list)
    × (((remove_player 5 (add_player 5 half_empty)).players 5).position ≡ none)
unfolding find
remove_player_example = remove_player-add_player 5 half_empty (ground arith) (ground arith) refl

-- The same table while player 1 is to drop a tile.
abbrev dropping : Room
dropping = record table { play_state = normal_gaming; wait_list = [] }

dropping-IsRunning : IsRunning four dropping
unfolding get_member_by_position
dropping-IsRunning = record {
  all_there = table-IsRunning.all_there;
  at_seat = table-IsRunning.at_seat;
  tiles_only = refl;
}

request_drop_example :
    (s : Room) × (d : Room) × (request_drop 1 2 dropping ≡ some s)
    × HasDropped 1 5 dropping d
    × Continues 1 5 d s
request_drop_example = request_drop_lem 1 2 5 dropping four refl dropping-IsRunning (
  λ ne e. ground arith,
  (λ ne e. ground arith, (λ ne e. ground arith, (λ ne e. ground arith, tt))),
)

start_game_now_example :
    (s : Room) × (start_game_now (set_mahjong_state waiting table) ≡ some s)
    × ((q : ℕ) → (s.players q).hand_in ≡ (table.players q).hand_in)
start_game_now_example = start_game_now-waiting table (refl, (refl, (refl, (refl, tt))))

notify_example :
    (heard 2 (notify_all_player_drop 1 6 5 table).sent
      ≡ heard 2 table.sent ++ replicate (other_seats_of 2 1 table) (other_drop 101 6 5))
    × (heard 2 (notify_all_player_get_mahjong 1 5 table).sent
        ≡ heard 2 table.sent ++ replicate (other_seats_of 2 1 table) (other_get_tile 101 5))
    × (heard 2 (notify_all_player_gang 1 0 5 table).sent
        ≡ heard 2 table.sent ++ replicate (other_seats_of 2 1 table) (other_gang 1 0 5))
    × (heard 2 (notify_all_player_peng 1 0 5 table).sent
        ≡ heard 2 table.sent ++ replicate (other_seats_of 2 1 table) (other_peng 1 0 5))
    × (heard 2 (notify_all_player_pass 1 0 5 table).sent
        ≡ heard 2 table.sent ++ replicate (other_seats_of 2 1 table) (other_pass 1 0 5))
    × (heard 2 (notify_all_player_ask_drop 1 table).sent
        ≡ heard 2 table.sent ++ replicate (other_seats_of 2 1 table) (other_ask_drop 1))
    × (heard 2 (notify_all_player_get_hua 1 5 table).sent
        ≡ heard 2 table.sent ++ replicate (other_seats_of 2 1 table) (other_get_hua 1 5))
    × (heard 2 (notify_all_player_ask_action 1 table).sent
        ≡ heard 2 table.sent ++ replicate (other_seats_of 2 1 table) (other_ask_action 1))
    × (heard 2 (notify_all_player_reorder_mahjong 1 table).sent
        ≡ heard 2 table.sent ++ replicate (other_seats_of 2 1 table) (other_reorder 101))
    × (heard 2 (notify_all_player_get_start_done table).sent
        ≡ heard 2 table.sent ++ replicate (seats_of 2 table.position_list) all_get_start_done)
    × (heard 2 (notify_all_player_mahjong_pool_size 6 table).sent
        ≡ heard 2 table.sent ++ replicate (seats_of 2 table.position_list) (pool_size 6))
notify_example = notify_lem 2 1 0 6 5 table

-- Two rooms created, and the first one destroyed.
abbrev room_ops : List ManagerOp
room_ops =
    ManagerOp.create player_of (λ n. 0)
    ∷ ManagerOp.create player_of (λ n. 0)
    ∷ ManagerOp.destroy_one 0
    ∷ []

create_room_example :
    IsManager (manage_all room_ops no_rooms)
    × (get_room (manage_all room_ops no_rooms).room_id_seed (manage_all room_ops no_rooms) ≡ none)
    × (get_room 2 (create_room player_of (λ n. 0) (manage_all room_ops no_rooms)).1 ≡ (
        if (manage_all room_ops no_rooms).room_id_seed == 2
        then some (create_room player_of (λ n. 0) (manage_all room_ops no_rooms)).0
        else get_room 2 (manage_all room_ops no_rooms)))
    × (get_room 2 (destroy_room 1 (manage_all room_ops no_rooms))
        ≡ (if 1 == 2 then none else get_room 2 (manage_all room_ops no_rooms)))
create_room_example = create_room_lem room_ops player_of (λ n. 0) 2 1
