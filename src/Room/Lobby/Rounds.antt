-- ===== src/Room/Lobby/Rounds.antt =====
-- The start of a second round: what Room::reset leaves for CommandRoomStartGame.
use mahjong_server.Common.{
  ℕ, ◌≡◌, refl, ◌∙◌, ap, true, false, List, [], ◌∷◌, some, ◌==◌, if◌then◌else◌, All, Bool-cases,
  inl, inr,
}
use mahjong_server.Room.State.{Room, Command, waiting, modify, send, ◌>>=◌}
use mahjong_server.Room.Notify.{notify_all_player_mahjong_pool_size}
use mahjong_server.Room.Seats.{set_mahjong_state, reset, clear_wait_list}
use mahjong_server.Room.Lobby.{tell_start, hand_out, start_game_now, player_get_start_done}

-- All on the list are players with a client of their own, no robots.
abbrev pub ArePeople : Room → List (ℕ × ℕ) → Type 0
ArePeople r = All (λ m. (r.players m.1).is_player ≡ true)

-- The room after one player has been told that the game starts.
abbrev told : ℕ → Command → Room → Room
told p command r = send p command (modify p (λ c. record c { ready = false }) r)

told-same :
    (p q : ℕ) (command : Command) (r : Room)
    → (((told p command r).players q).is_player ≡ (r.players q).is_player)
      × (((told p command r).players q).hand_in ≡ (r.players q).hand_in)
told-same p q command r = elim (Bool-cases (q == p)) [
  | inl e ↦ rw e (refl, refl)
  | inr e ↦ rw e (refl, refl)
]

ArePeople-told :
    (p : ℕ) (command : Command) (r : Room) (l : List (ℕ × ℕ))
    → ArePeople r l
    → ArePeople (told p command r) l
ArePeople-told p command r [] h = tt
ArePeople-told p command r ((g, q) ∷ l) h =
    ((told-same p q command r).0 ∙ h.0, ArePeople-told p command r l h.1)

tell_start-hands :
    (command : Command) (l : List (ℕ × ℕ)) (r : Room)
    → ArePeople r l
    → (s : Room) × (tell_start command l r ≡ some s)
      × ((q : ℕ) → (s.players q).hand_in ≡ (r.players q).hand_in)
unfolding tell_start
tell_start-hands command [] r h = (r, refl, λ q. refl)
tell_start-hands command ((g, p) ∷ l) r h =
    let t = told p command r in
    let (s, run, same) = tell_start-hands command l t (ArePeople-told p command r l h.1) in
    let e = (told-same p p command r).0 ∙ h.0 in
    (
      s,
      ap (λ b. (if b then some t else player_get_start_done p t) >>= tell_start command l) e ∙ run,
      λ q. same q ∙ (told-same p q command r).1,
    )

-- A room that has gone to the waiting phase has forgotten its banker. When all on its list are
-- people, the next start of a game there does not fail and leaves every hand as it is: no tile is
-- dealt.
pub start_game_now-waiting :
    (r : Room)
    → ArePeople r r.player_list
    → (s : Room) × (start_game_now (set_mahjong_state waiting r) ≡ some s)
      × ((q : ℕ) → (s.players q).hand_in ≡ (r.players q).hand_in)
unfolding start_game_now set_mahjong_state reset clear_wait_list notify_all_player_mahjong_pool_size
    hand_out
start_game_now-waiting r h = tell_start-hands _ r.player_list _ h
