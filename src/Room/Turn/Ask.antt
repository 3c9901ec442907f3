-- ===== src/Room/Turn/Ask.antt =====
-- Asking a player what to do moves no tile.
use mahjong_server.Common.{ℕ, ◌≡◌, ◌≢◌, refl, true, List, [], ◌∷◌, some, Bool-cases, inl, inr}
use mahjong_server.Hand.{can_hu}
use mahjong_server.Hand.Kinds.{generate_hu_type-total}
use mahjong_server.Player.{CharacterData}
use mahjong_server.Room.State.{Room, MahjongAction}
use mahjong_server.Room.Notify.{
  player_ask_action, player_ask_drop, notify_all_player_ask_action, notify_all_player_ask_drop,
}
use mahjong_server.Room.Seats.{set_mahjong_state}
use mahjong_server.Room.Turn.{
  ask_player_action, ask_or_drop, with_pass, own_actions, notify_player_get,
}

-- Nothing but messages, the phase and the wait list has changed.
pub record Keeps (r s : Room) : Type 0 where
  pub pool : s.mahjong_pool ≡ r.mahjong_pool
  pub players : s.players ≡ r.players
  pub seats : s.position_list ≡ r.position_list
  pub list : s.player_list ≡ r.player_list

pub ask_player_action-Keeps :
    (p d mah : ℕ) (l : List MahjongAction) (r : Room) → Keeps r (ask_player_action p d mah l r)
unfolding ask_player_action player_ask_action notify_all_player_ask_action set_mahjong_state
ask_player_action-Keeps p d mah [] r = record {
  pool = refl;
  players = refl;
  seats = refl;
  list = refl;
}
ask_player_action-Keeps p d mah (a ∷ l) r = record {
  pool = refl;
  players = refl;
  seats = refl;
  list = refl;
}

pub player_ask_drop-Keeps : (p : ℕ) (r : Room) → Keeps r (player_ask_drop p r)
unfolding player_ask_drop notify_all_player_ask_drop
player_ask_drop-Keeps p r = record { pool = refl; players = refl; seats = refl; list = refl }

ask_or_drop-Keeps :
    (p mah : ℕ) (l : List MahjongAction) (r : Room) → Keeps r (ask_or_drop p mah l r)
ask_or_drop-Keeps p mah [] r = player_ask_drop-Keeps p r
ask_or_drop-Keeps p mah (a ∷ l) r = ask_player_action-Keeps p p mah (with_pass _ (a ∷ l)) r

own_actions-total :
    (p mah : ℕ) (c : CharacterData)
    → c.hand_in ≢ []
    → (l : List MahjongAction) × (own_actions p mah c ≡ some l)
unfolding own_actions
own_actions-total p mah c h = elim (Bool-cases (can_hu c.hand_in)) [
  | inl e ↦
      let (l, f) = generate_hu_type-total c.hand_in mah c.peng_gang_list true h in
      rw e (rw f (_, refl))
  | inr e ↦ rw e (_, refl)
]

pub notify_player_get-Keeps :
    (p mah : ℕ) (r : Room)
    → (r.players p).hand_in ≢ []
    → (s : Room) × (notify_player_get p mah r ≡ some s) × Keeps r s
unfolding notify_player_get
notify_player_get-Keeps p mah r h =
    let (l, e) = own_actions-total p mah (r.players p) h in
    (ask_or_drop p mah l r, rw (e, notify_player_get) refl, ask_or_drop-Keeps p mah l r)
