-- ===== src/Room/Notify.antt =====
-- Room.cpp, the functions that tell the players at the table what happened, and those that tell one
-- player and then the others. An empty seat holds NULL, and a push to NULL does nothing but log.
pub mod Receivers
use mahjong_server.Common.{
  ℕ, Bool, true, false, List, [], ◌∷◌, ◌++◌, map, Option, none, some, ◌==◌, if◌then◌else◌,
}
use mahjong_server.Common.Int.{ℤ}
use mahjong_server.Player.{get_hua, get_mahjong, player_gang, player_peng, reorder_mahjong}
use mahjong_server.Room.State.{
  Room, Command, MahjongAction, HuInfo, modify, send, send_each, other_join_room, other_leave_room,
  other_continue_game, other_ready, notify_banker, all_get_start_done, pool_size, get_tile,
  other_get_tile, got_hua, other_get_hua, other_drop, reorder, other_reorder, ask_drop,
  other_ask_drop, ask_action, other_ask_action, gang_tile, other_gang, peng_tile, other_peng,
  pass_tile, other_pass, player_hu, mahjong_end,
}

-- The players at the seats, in the order of the seats, and those that are not `player`.
unfoldable pub seated : List (ℕ × Option ℕ) → List ℕ
seated [] = []
seated ((k, none) ∷ seats) = seated seats
seated ((k, some p) ∷ seats) = p ∷ seated seats

pub but : ℕ → List ℕ → List ℕ
but player [] = []
but player (p ∷ ps) = if p == player then but player ps else p ∷ but player ps

abbrev pub members : List (ℕ × ℕ) → List ℕ
members = map (λ m. m.1)

abbrev pub other_seats : ℕ → Room → List ℕ
other_seats player r = but player (seated r.position_list)

unfoldable pub notify_all_player_other_join_room : ℕ → Room → Room
notify_all_player_other_join_room player r =
    send_each (but player (members r.player_list)) (other_join_room player) r

-- Each player who chose to go on hears of `player`, and `player` of each such player.
pub continue_commands : ℕ → List (ℕ × Bool) → List (ℕ × Command)
continue_commands player [] = []
continue_commands player ((p, true) ∷ chosen) =
    (p, other_continue_game player)
    ∷ (player, other_continue_game p)
    ∷ continue_commands player chosen
continue_commands player ((p, false) ∷ chosen) = continue_commands player chosen

unfoldable pub notify_all_player_continue_game : ℕ → Room → Room
unfolding continue_commands
notify_all_player_continue_game player r = record r {
  sent = r.sent ++ continue_commands player r.player_choose_list;
}

unfoldable pub notify_all_player_other_leave_room : ℕ → Room → Room
notify_all_player_other_leave_room player r =
    send_each (members r.player_list) (other_leave_room (r.players player).guid) r

unfoldable pub notify_all_player_ready : ℕ → Bool → Room → Room
notify_all_player_ready player ready r =
    send_each (but player (members r.player_list)) (other_ready (r.players player).guid ready) r

unfoldable pub notify_all_player_drop : ℕ → ℕ → ℕ → Room → Room
unfolding seated but
notify_all_player_drop player index mah r =
    send_each (other_seats player r) (other_drop (r.players player).guid index mah) r

unfoldable pub notify_all_player_mahjong_end : List (ℕ × ℤ) → Room → Room
unfolding seated
notify_all_player_mahjong_end money_delta_list r =
    send_each (seated r.position_list) (mahjong_end money_delta_list) r

unfoldable pub notify_all_player_get_start_done : Room → Room
unfolding seated
notify_all_player_get_start_done r = send_each (seated r.position_list) all_get_start_done r

unfoldable pub notify_all_player_banker : ℕ → Room → Room
notify_all_player_banker banker r = send_each (members r.player_list) (notify_banker banker) r

unfoldable pub notify_all_player_get_mahjong : ℕ → ℕ → Room → Room
unfolding seated but
notify_all_player_get_mahjong player mah r =
    send_each (other_seats player r) (other_get_tile (r.players player).guid mah) r

unfoldable pub notify_all_player_reorder_mahjong : ℕ → Room → Room
unfolding seated but
notify_all_player_reorder_mahjong player r =
    send_each (other_seats player r) (other_reorder (r.players player).guid) r

unfoldable pub notify_all_player_hu : List (ℕ × HuInfo) → Room → Room
unfolding seated
notify_all_player_hu hu_info_list r =
    send_each (seated r.position_list) (player_hu (map (λ i. (i.0, i.1.hu_list)) hu_info_list)) r

unfoldable pub notify_all_player_gang : ℕ → ℕ → ℕ → Room → Room
unfolding seated but
notify_all_player_gang player dropped_player mah r =
    send_each (other_seats player r) (other_gang player dropped_player mah) r

unfoldable pub notify_all_player_peng : ℕ → ℕ → ℕ → Room → Room
unfolding seated but
notify_all_player_peng player dropped_player mah r =
    send_each (other_seats player r) (other_peng player dropped_player mah) r

unfoldable pub notify_all_player_pass : ℕ → ℕ → ℕ → Room → Room
unfolding seated but
notify_all_player_pass player dropped_player mah r =
    send_each (other_seats player r) (other_pass player dropped_player mah) r

unfoldable pub notify_all_player_ask_drop : ℕ → Room → Room
unfolding seated but
notify_all_player_ask_drop player r = send_each (other_seats player r) (other_ask_drop player) r

unfoldable pub notify_all_player_get_hua : ℕ → ℕ → Room → Room
unfolding seated but
notify_all_player_get_hua player mah r =
    send_each (other_seats player r) (other_get_hua player mah) r

unfoldable pub notify_all_player_ask_action : ℕ → Room → Room
unfolding seated but
notify_all_player_ask_action player r = send_each (other_seats player r) (other_ask_action player) r

unfoldable pub notify_all_player_mahjong_pool_size : ℕ → Room → Room
unfolding seated
notify_all_player_mahjong_pool_size amount r =
    send_each (seated r.position_list) (pool_size amount) r

-- A command to the player, executed at once, and then the others are told.
unfoldable pub player_get_hua : ℕ → ℕ → Room → Room
unfolding notify_all_player_get_hua get_hua
player_get_hua player hua r =
    notify_all_player_get_hua player hua (send player (got_hua hua) (modify player (get_hua hua) r))

-- A robot answers by a delayed command of its own, which is not executed here.
unfoldable pub player_ask_action : ℕ → List MahjongAction → Room → Room
unfolding notify_all_player_ask_action
player_ask_action player action_list r =
    send player (ask_action action_list) (notify_all_player_ask_action player r)

unfoldable pub player_ask_drop : ℕ → Room → Room
unfolding notify_all_player_ask_drop
player_ask_drop player r = send player ask_drop (notify_all_player_ask_drop player r)

unfoldable pub player_pass : ℕ → ℕ → ℕ → Room → Room
unfolding notify_all_player_pass
player_pass player dropped_player mah r =
    notify_all_player_pass player dropped_player mah (send player (pass_tile dropped_player mah) r)

unfoldable pub player_peng_at : ℕ → ℕ → ℕ → Room → Room
unfolding notify_all_player_peng player_peng
player_peng_at player dropped_player mah r =
    notify_all_player_peng player dropped_player mah
      (send player (peng_tile dropped_player mah) (modify player (player_peng mah) r))

unfoldable pub player_gang_at : ℕ → ℕ → ℕ → Room → Room
unfolding notify_all_player_gang player_gang
player_gang_at player dropped_player mah r = notify_all_player_gang player dropped_player mah (
    send player (gang_tile dropped_player mah)
      (modify player (player_gang mah (dropped_player == player)) r))

unfoldable pub player_reorder_mahjong : ℕ → Room → Room
unfolding notify_all_player_reorder_mahjong reorder_mahjong
player_reorder_mahjong player r =
    notify_all_player_reorder_mahjong player (send player reorder (modify player reorder_mahjong r))

unfoldable pub player_get_mahjong : ℕ → ℕ → Room → Room
unfolding notify_all_player_get_mahjong get_mahjong
player_get_mahjong player mah r =
    notify_all_player_get_mahjong player mah
      (send player (get_tile mah) (modify player (get_mahjong mah) r))
