-- ===== src/Room/State.antt =====
-- Server/Game/Room/Room.h, HuInfo.h, MahjongAction.h, WaitActionInfo.h: the state of a room. A pointer
-- to a player is a number, the player's address; `players` is what the addresses lead to. A pushed
-- command is executed at once: where it changes a player or the room the model does so, and every
-- command pushed to a player is put behind `sent`, its packet included. `rand` is what the C library's
-- rand() returns at its following calls. -1 is `none`, and so is NULL.
use mahjong_server.Common.{
  ℕ, Bool, true, List, [], ◌∷◌, ◌++◌, map, Option, none, some, ◌==◌, if◌then◌else◌,
}
use mahjong_server.Common.Int.{ℤ}
use mahjong_server.Tile.{ActionType, HuType}
use mahjong_server.Player.{CharacterData}

pub data PlayState : Type 0 where
  no_state waiting get_start normal_gaming wait_for_action ending : PlayState

pub record MahjongAction : Type 0 where
  pub type : ActionType
  pub action_player : ℕ
  pub dropped_player : ℕ
  pub mah : ℕ
  pub hu_list : List HuType

pub record WaitActionInfo : Type 0 where
  pub player : ℕ
  pub dropped_player : ℕ
  pub action_list : List MahjongAction
  pub mahjong : ℕ
  pub confirmed_action : Option MahjongAction

pub record HuInfo : Type 0 where
  pub hu_player : ℕ
  pub dropped_player : ℕ
  pub mahjong : ℕ
  pub hu_list : List HuType

-- The commands that a room pushes to a player.
pub data Command : Type 0 where
  other_join_room : ℕ → Command
  leave_room : Command
  other_leave_room : ℕ → Command
  continue_game : Command
  other_continue_game : ℕ → Command
  ready_changed : Bool → Command
  other_ready : ℕ → Bool → Command
  notify_banker : ℕ → Command
  start_game : ℕ → ℕ → List ℕ → List (List ℕ) → List (List ℕ) → Option ℕ → Command
  all_get_start_done : Command
  pool_size : ℕ → Command
  get_tile : ℕ → Command
  other_get_tile : ℕ → ℕ → Command
  got_hua : ℕ → Command
  other_get_hua : ℕ → ℕ → Command
  dropped : ℕ → ℕ → Command
  other_drop : ℕ → ℕ → ℕ → Command
  reorder : Command
  other_reorder : ℕ → Command
  ask_drop : Command
  other_ask_drop : ℕ → Command
  ask_action : List MahjongAction → Command
  other_ask_action : ℕ → Command
  gang_tile : ℕ → ℕ → Command
  other_gang : ℕ → ℕ → ℕ → Command
  peng_tile : ℕ → ℕ → Command
  other_peng : ℕ → ℕ → ℕ → Command
  pass_tile : ℕ → ℕ → Command
  other_pass : ℕ → ℕ → ℕ → Command
  player_hu : List (ℕ × List HuType) → Command
  mahjong_end : List (ℕ × ℤ) → Command

pub record Room : Type 0 where
  pub id : ℕ
  pub max_player_count : ℕ
  pub public_room : Bool
  pub player_list : List (ℕ × ℕ)
  pub position_list : List (ℕ × Option ℕ)
  pub play_state : PlayState
  pub mahjong_pool : List ℕ
  pub banker_pos : Option ℕ
  pub cur_assign_pos : Option ℕ
  pub wait_list : List (ℕ × WaitActionInfo)
  pub player_choose_list : List (ℕ × Bool)
  pub players : ℕ → CharacterData
  pub sent : List (ℕ × Command)
  pub rand : ℕ → ℕ

-- Room::Room
abbrev pub new_room : ℕ → (ℕ → CharacterData) → (ℕ → ℕ) → Room
new_room id players rand = record {
  id = id;
  max_player_count = 4;
  public_room = true;
  player_list = [];
  position_list = (0, none) ∷ (1, none) ∷ (2, none) ∷ (3, none) ∷ [];
  play_state = no_state;
  mahjong_pool = [];
  banker_pos = none;
  cur_assign_pos = none;
  wait_list = [];
  player_choose_list = [];
  players = players;
  sent = [];
  rand = rand;
}

-- The data behind an address, changed.
abbrev pub modify : ℕ → (CharacterData → CharacterData) → Room → Room
modify p f r = record r { players = λ q. if q == p then f (r.players q) else r.players q }

-- Pushing a command to a player, and to each of a list.
abbrev pub send : ℕ → Command → Room → Room
send p c r = record r { sent = r.sent ++ (p, c) ∷ [] }

abbrev pub send_each : List ℕ → Command → Room → Room
send_each ps c r = record r { sent = r.sent ++ map (λ p. (p, c)) ps }

-- A failure is undefined behaviour of the source: a NULL pointer or an index out of range.
infixl 5 ◌>>=◌
abbrev pub ◌>>=◌ {ℓ κ} : {A : Type ℓ} {B : Type κ} → Option A → (A → Option B) → Option B
none >>= f = none
some a >>= f = f a
