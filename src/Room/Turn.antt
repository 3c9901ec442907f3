-- ===== src/Room/Turn.antt =====
-- Room.cpp: drawing and dropping tiles, asking the players what to do, and carrying out what they
-- choose.
pub mod Ask
pub mod Confirm
pub mod Priority
pub mod Choice
pub mod Draw
pub mod Others
pub mod Drop
use mahjong_server.Common.{
  ℕ, zero, suc, ◌+◌, ◌-◌, Bool, true, false, not, ◌&&◌, List, [], ◌∷◌, ◌++◌, Option, none, some,
  ◌==◌, ltb, if◌then◌else◌, length, get_elem?,
}
use mahjong_server.Tile.{
  ActionType, hu, gang, peng, pass, rank, HuType, m_max, is_hua, PengGangInfo,
}
use mahjong_server.Hand.{can_hu, can_hu_with}
use mahjong_server.Hand.Meld.{can_peng, can_gang, can_gang_own}
use mahjong_server.Hand.Kinds.{generate_hu_type, is_peng}
use mahjong_server.Stl.TxMap.{find, insert, assign}
use mahjong_server.Player.{CharacterData, drop_mahjong, reorder_mahjong, is_peng_of}
use mahjong_server.Pool.{request_get}
use mahjong_server.Room.State.{
  Room, MahjongAction, WaitActionInfo, HuInfo, PlayState, normal_gaming, wait_for_action, modify,
  send, dropped, reorder, ◌>>=◌,
}
use mahjong_server.Room.Notify.{
  player_get_hua, player_get_mahjong, player_ask_action, player_ask_drop, player_gang_at,
  player_peng_at, notify_all_player_drop, notify_all_player_hu, notify_all_player_mahjong_pool_size,
}
use mahjong_server.Room.Seats.{
  set_mahjong_state, clear_wait_list, get_member_by_position, next_seat,
}
use mahjong_server.Room.EndGame.{end_game}

abbrev pub wait_info : ℕ → ℕ → ℕ → List MahjongAction → WaitActionInfo
wait_info player dropped_player mah action_list = record {
  player = player;
  dropped_player = dropped_player;
  action_list = action_list;
  mahjong = mah;
  confirmed_action = none;
}

abbrev pub add_wait : ℕ → WaitActionInfo → Room → Room
add_wait player info r = record r { wait_list = insert player info r.wait_list }

-- askPlayerAction. A player who is in the wait list already keeps its old entry there.
unfoldable pub ask_player_action : ℕ → ℕ → ℕ → List MahjongAction → Room → Room
unfolding insert set_mahjong_state player_ask_action
ask_player_action player dropped_player mah [] r = r
ask_player_action player dropped_player mah (a ∷ rest) r = player_ask_action player (a ∷ rest) (
    set_mahjong_state wait_for_action
      (add_wait player (wait_info player dropped_player mah (a ∷ rest)) r))

abbrev pub action : ActionType → ℕ → ℕ → ℕ → MahjongAction
action type player dropped_player mah = record {
  type = type;
  action_player = player;
  dropped_player = dropped_player;
  mah = mah;
  hu_list = [];
}

abbrev pub hu_action : ℕ → ℕ → ℕ → List HuType → MahjongAction
hu_action player dropped_player mah hu_list = record {
  type = hu;
  action_player = player;
  dropped_player = dropped_player;
  mah = mah;
  hu_list = hu_list;
}

abbrev pub with_pass : MahjongAction → List MahjongAction → List MahjongAction
with_pass p [] = []
with_pass p (a ∷ rest) = (a ∷ rest) ++ p ∷ []

pub has_peng_of : ℕ → List PengGangInfo → Bool
has_peng_of mah [] = false
has_peng_of mah (i ∷ rest) = if is_peng_of mah i then true else has_peng_of mah rest

-- What a player may do with a tile that it drew: win; or else put four of a kind down, or the drawn
-- tile to an earlier peng.
pub own_actions : ℕ → ℕ → CharacterData → Option (List MahjongAction)
own_actions player mah c =
    if can_hu c.hand_in
    then (generate_hu_type c.hand_in mah c.peng_gang_list true true >>= λ hu_list.
        some (hu_action player player mah hu_list ∷ []))
    else let four = can_gang_own c.hand_in in
      some (
        (if not (four == m_max) then action gang player player four ∷ [] else [])
        ++ (if has_peng_of mah c.peng_gang_list then action gang player player mah ∷ [] else []))

abbrev pub ask_or_drop : ℕ → ℕ → List MahjongAction → Room → Room
ask_or_drop player mah [] r = player_ask_drop player r
ask_or_drop player mah (a ∷ rest) r =
    ask_player_action player player mah (with_pass (action pass player player m_max) (a ∷ rest)) r

unfoldable pub notify_player_get : ℕ → ℕ → Room → Option Room
unfolding own_actions ask_player_action player_ask_drop
notify_player_get player mah r = do
  actions ← own_actions player mah (r.players player)
  some (ask_or_drop player mah actions r)

-- The `while (true)` of requestMahjong. The pool is one shorter each round, so the fuel suffices.
pub request_loop : ℕ → Option ℕ → Room → Option Room
request_loop zero player r = none
request_loop (suc fuel) player r =
    let (mahjong, pool) = request_get r.mahjong_pool in
    let drawn = record r { mahjong_pool = pool } in
    elim (mahjong == m_max) [
      | true ↦ end_game [] drawn
      | false ↦ elim player [
        | none ↦ none
        | some p ↦ elim (is_hua mahjong) [
          | true ↦ request_loop fuel (some p) (player_get_hua p mahjong drawn)
          | false ↦ notify_player_get p mahjong (player_get_mahjong p mahjong drawn)
        ]
      ]
    ]

unfoldable pub request_mahjong : Option ℕ → Room → Option Room
unfolding request_loop notify_all_player_mahjong_pool_size
request_mahjong player r = do
  s ← request_loop (length r.mahjong_pool + 1) player r
  some (notify_all_player_mahjong_pool_size (length s.mahjong_pool) s)

-- What another player may do with a dropped tile.
pub other_actions : ℕ → ℕ → ℕ → CharacterData → Option (List MahjongAction)
other_actions player dropped_player mah c = do
  hus ←
      if can_hu_with c.hand_in mah
      then (generate_hu_type c.hand_in mah c.peng_gang_list false false >>= λ hu_list.
          some (hu_action player dropped_player mah hu_list ∷ []))
      else some []
  let gangs = if can_gang c.hand_in mah then action gang player dropped_player mah ∷ [] else []
  let pengs = if can_peng c.hand_in mah then action peng player dropped_player mah ∷ [] else []
  some (with_pass (action pass player dropped_player mah) (hus ++ gangs ++ pengs))

abbrev pub is_nonempty : List MahjongAction → Bool
is_nonempty [] = false
is_nonempty (a ∷ rest) = true

-- The loop over the other players, and whether one of them has something to do.
pub ask_others : ℕ → ℕ → List (ℕ × ℕ) → Bool → Room → Option (Bool × Room)
ask_others player mah [] has_action r = some (has_action, r)
ask_others player mah ((guid, q) ∷ l) has_action r = elim (q == player) [
  | true ↦ ask_others player mah l has_action r
  | false ↦ elim (other_actions q player mah (r.players q)) [
    | none ↦ none
    | some actions ↦
        ask_others player mah l (if is_nonempty actions then true else has_action)
          (ask_player_action q player mah actions r)
  ]
]

abbrev pub is_normal_gaming : PlayState → Bool
is_normal_gaming normal_gaming = true
is_normal_gaming _ = false

abbrev pub request_next : ℕ → Bool × Room → Option Room
request_next player (true, r) = some r
request_next player (false, r) =
    request_mahjong (get_member_by_position (next_seat (r.players player).position) r) r

unfoldable pub notify_player_dropped : ℕ → ℕ → Room → Option Room
unfolding ask_others other_actions ask_player_action request_mahjong get_member_by_position
notify_player_dropped player mah r =
    if is_normal_gaming r.play_state
    then (ask_others player mah r.player_list false r >>= request_next player)
    else some r

abbrev pub replace_data : ℕ → CharacterData → Room → Room
replace_data p c r = modify p (λ _. c) r

-- playerDrop with the command that it pushes: the tile leaves the hand, and the hand is sorted.
unfoldable pub player_drop : ℕ → ℕ → ℕ → Room → Option Room
unfolding drop_mahjong reorder_mahjong notify_all_player_drop
player_drop player index mah r = do
  c ← drop_mahjong index (r.players player)
  let s = send player (dropped index mah) (replace_data player c r)
  some (
      notify_all_player_drop player index mah
        (send player reorder (modify player reorder_mahjong s)))

unfoldable pub request_drop : ℕ → ℕ → Room → Option Room
unfolding player_drop notify_player_dropped
request_drop player index r = do
  mahjong ← get_elem? (r.players player).hand_in index
  s ← player_drop player index mahjong r
  notify_player_dropped player mahjong s

unfoldable pub find_action : ActionType → List MahjongAction → Option MahjongAction
find_action type [] = none
find_action type (a ∷ rest) = if rank a.type == rank type then some a else find_action type rest

abbrev pub is_hu : ActionType → Bool
is_hu hu = true
is_hu _ = false

abbrev pub hu_info_of : ℕ → WaitActionInfo → MahjongAction → HuInfo
hu_info_of p w a = record {
  hu_player = p;
  dropped_player = w.dropped_player;
  mahjong = w.mahjong;
  hu_list = a.hu_list;
}

abbrev pub add_hu :
    ℕ → WaitActionInfo → Option MahjongAction → List (ℕ × HuInfo) → List (ℕ × HuInfo)
add_hu p w none m = m
add_hu p w (some a) m = insert p (hu_info_of p w a) m

-- All the players who could win, by the order of the wait list.
pub hu_players : List (ℕ × WaitActionInfo) → List (ℕ × HuInfo) → List (ℕ × HuInfo)
hu_players [] m = m
hu_players ((p, w) ∷ l) m = hu_players l (add_hu p w (find_action hu w.action_list) m)

abbrev pub Highest : Type 0
Highest = Option (MahjongAction × ℕ)

abbrev pub higher : Highest → MahjongAction → ℕ → Highest
higher none a p = some (a, p)
higher (some (b, q)) a p = if ltb (rank a.type) (rank b.type) then some (a, p) else some (b, q)

-- `none` when somebody has not confirmed; else the confirmed action that goes first, and its player.
pub highest_action : List (ℕ × WaitActionInfo) → Highest → Option Highest
highest_action [] h = some h
highest_action ((p, w) ∷ l) h = elim w.confirmed_action [
  | none ↦ none
  | some a ↦ highest_action l (higher h a w.player)
]

-- What the chosen action does.
pub carry_out : ActionType → WaitActionInfo → Room → Option Room
carry_out gang w r =
    request_mahjong (some w.player) (player_gang_at w.player w.dropped_player w.mahjong r)
carry_out peng w r =
    some (player_ask_drop w.player (player_peng_at w.player w.dropped_player w.mahjong r))
carry_out pass w r =
    if w.dropped_player == w.player
    then some (player_ask_drop w.player r)
    else request_mahjong
        (get_member_by_position (next_seat (r.players w.dropped_player).position) r) r
carry_out _ w r = some r

abbrev pub act_if_all : Option Highest → Room → Option Room
act_if_all none r = some r
act_if_all (some none) r = none
act_if_all (some (some (a, p))) r = do
  let s = set_mahjong_state normal_gaming r
  w ← find p s.wait_list
  t ← carry_out a.type w s
  some (clear_wait_list t)

abbrev pub confirm : ℕ → WaitActionInfo → MahjongAction → Room → Option Room
confirm player w a r =
    let s = record r {
      wait_list = assign player (record w { confirmed_action = some a }) r.wait_list;
    } in
    if is_hu a.type
    then (let hus = hu_players s.wait_list [] in end_game hus (notify_all_player_hu hus s))
    else act_if_all (highest_action s.wait_list none) s

abbrev pub confirm_found : ℕ → WaitActionInfo → Option MahjongAction → Room → Option Room
confirm_found player w none r = some r
confirm_found player w (some a) r = confirm player w a r

abbrev pub confirm_waiting : ℕ → ActionType → Option WaitActionInfo → Room → Option Room
confirm_waiting player type none r = some r
confirm_waiting player type (some w) r = confirm_found player w (find_action type w.action_list) r

-- A player who is not waited for, or was not offered the action, changes nothing.
unfoldable pub player_confirm_action : ℕ → ActionType → Room → Option Room
unfolding find
player_confirm_action player type r = confirm_waiting player type (find player r.wait_list) r
