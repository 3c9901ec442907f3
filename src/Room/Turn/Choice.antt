-- ===== src/Room/Turn/Choice.antt =====
-- Room::playerConfirmAction: carrying out the choice that goes first does not fail.
use mahjong_server.Common.{
  subst, ℕ, ◌<◌, ◌≡◌, ◌⊎◌, refl, sym, ◌∙◌, ap, false, List, [], ◌∷◌, Option, none, some, ◌==◌,
  count, arith, Bool-cases, inl, inr, All,
}
use mahjong_server.Tile.{m_max, ActionType, hu, gang, peng, pass, max, rank}
use mahjong_server.Stl.TxMap.{find, assign}
use mahjong_server.Room.State.{Room, MahjongAction, WaitActionInfo, normal_gaming}
use mahjong_server.Room.Notify.{player_gang_at, notify_all_player_gang}
use mahjong_server.Room.Seats.{
  set_mahjong_state, clear_wait_list, get_member_by_position, next_seat,
}
use mahjong_server.Room.EndGame.{all_seated}
use mahjong_server.Room.Turn.{
  is_hu, highest_action, carry_out, act_if_all, confirm, player_confirm_action, find_action,
  request_mahjong,
}
use mahjong_server.Room.Turn.Draw.{request_mahjong_lem}
use mahjong_server.Room.Turn.Confirm.{confirmed, player_confirm-found}
use mahjong_server.Room.Turn.Priority.{AllFrom, IsChoice, SomeWait, highest_action_lem}

-- A room in which a game can go on: a player at each of the four seats, and only tiles in the pool.
pub record IsRunning (ps : List ℕ) (r : Room) : Type 0 where
  pub all_there : all_seated r.position_list ≡ some ps
  pub at_seat : (n : ℕ) → n < 4 → (q : ℕ) × (get_member_by_position n r ≡ some q)
  pub tiles_only : count m_max r.mahjong_pool ≡ 0

pub next_seat-bound : (o : Option ℕ) → next_seat o < 4
next_seat-bound none = omega arith
next_seat-bound (some n) = omega arith

next_draws :
    (o : Option ℕ) (r : Room) (ps : List ℕ)
    → IsRunning ps r
    → (s : Room) × (request_mahjong (get_member_by_position (next_seat o) r) r ≡ some s)
next_draws o r ps v =
    let (q, e) = v.at_seat (next_seat o) (next_seat-bound o) in
    let (s, run, h) = request_mahjong_lem q r ps v.tiles_only v.all_there in (s, rw e run)

carry_out-total :
    (type : ActionType) (w : WaitActionInfo) (r : Room) (ps : List ℕ)
    → IsRunning ps r
    → (s : Room) × (carry_out type w r ≡ some s)
unfolding carry_out player_gang_at notify_all_player_gang
carry_out-total hu w r ps v = (r, refl)
carry_out-total gang w r ps v =
    let (s, run, h) =
      request_mahjong_lem w.player (player_gang_at w.player w.dropped_player w.mahjong r) ps
        v.tiles_only v.all_there in
    (s, run)
carry_out-total peng w r ps v = (_, refl)
carry_out-total pass w r ps v = elim (Bool-cases (w.dropped_player == w.player)) [
  | inl e ↦ rw e (_, refl)
  | inr e ↦ rw e (next_draws (r.players w.dropped_player).position r ps v)
]
carry_out-total max w r ps v = (r, refl)

-- The wait list has its entries under their players.
abbrev pub AreKeyed : List (ℕ × WaitActionInfo) → Type 0
AreKeyed = All (λ e. e.1.player ≡ e.0)

AreKeyed-confirmed :
    (p : ℕ) (w : WaitActionInfo) (a : MahjongAction) (l : List (ℕ × WaitActionInfo))
    → find p l ≡ some w
    → AreKeyed l
    → AreKeyed (confirmed p w a l)
unfolding find assign
AreKeyed-confirmed p w a [] h s = s
AreKeyed-confirmed p w a ((k, v) ∷ l) h s = ground (arith, AreKeyed-confirmed p w a l)

found_choice :
    (a : MahjongAction) (q : ℕ) (l : List (ℕ × WaitActionInfo))
    → AreKeyed l
    → IsChoice a q l
    → (v : WaitActionInfo) × (find q l ≡ some v)
unfolding find
found_choice a q [] k c = absurd c
found_choice a q ((j, w) ∷ l) k c = elim (Bool-cases (j == q)) [
  | inl e ↦ rw e (w, refl)
  | inr e ↦
      rw e (elim c [ inl (x, y) ↦ absurd (ground (arith, k.0)) | inr d ↦ found_choice a q l k.1 d ])
]

confirmed-cons :
    (p : ℕ) (w : WaitActionInfo) (a : MahjongAction) (l : List (ℕ × WaitActionInfo))
    → find p l ≡ some w
    → (k : ℕ) × (v : WaitActionInfo) × (m : List (ℕ × WaitActionInfo)) × (confirmed p w a l
        ≡ (k, v) ∷ m)
unfolding find assign
confirmed-cons p w a [] h = absurd (cc)
confirmed-cons p w a ((k, v) ∷ l) h = elim (Bool-cases (k == p)) [
  | inl e ↦ rw e (_, _, _, refl)
  | inr e ↦ rw e (_, _, _, refl)
]

-- The room once a player has confirmed and before anything is carried out.
abbrev pub after_confirm : ℕ → WaitActionInfo → MahjongAction → Room → Room
after_confirm p w a r = record r { wait_list = confirmed p w a r.wait_list }

confirm-act :
    (p : ℕ) (w : WaitActionInfo) (a : MahjongAction) (r : Room)
    → is_hu a.type ≡ false
    → confirm p w a r
      ≡ act_if_all (highest_action (confirmed p w a r.wait_list) none) (after_confirm p w a r)
unfolding confirm
confirm-act p w a r t = rw (t, confirm) refl

act-chosen :
    (a : MahjongAction) (q : ℕ) (v : WaitActionInfo) (r s : Room)
    → find q r.wait_list ≡ some v
    → carry_out a.type v (set_mahjong_state normal_gaming r) ≡ some s
    → act_if_all (some (some (a, q))) r ≡ some (clear_wait_list s)
unfolding act_if_all set_mahjong_state
act-chosen a q v r s e f = rw (e, act_if_all) (rw f refl)

-- A confirmed choice that is not a win, in a game that can go on, has one of two outcomes. While
-- somebody has not confirmed, it is put down in the wait list and nothing else happens. Else the
-- choice of one of the players, that no other goes before, is carried out without failing, and the
-- wait list is empty afterwards, whatever carrying it out has put there.
pub player_confirm_action_lem :
    (p : ℕ) (type : ActionType) (r : Room) (w : WaitActionInfo) (a : MahjongAction) (ps : List ℕ)
    → find p r.wait_list ≡ some w
    → find_action type w.action_list ≡ some a
    → is_hu a.type ≡ false
    → AreKeyed r.wait_list
    → IsRunning ps r
    → (SomeWait (confirmed p w a r.wait_list)
        × (player_confirm_action p type r ≡ some (after_confirm p w a r)))
      ⊎ ((b : MahjongAction) × (q : ℕ) × (v : WaitActionInfo) × (s : Room) × IsChoice b q
            (confirmed p w a r.wait_list)
          × AllFrom (rank b.type) (confirmed p w a r.wait_list)
          × (find q (confirmed p w a r.wait_list) ≡ some v)
          × (carry_out b.type v (set_mahjong_state normal_gaming (after_confirm p w a r)) ≡ some s)
          × (player_confirm_action p type r ≡ some (clear_wait_list s)))
unfolding set_mahjong_state get_member_by_position
player_confirm_action_lem p type r w a ps h k t keys v =
    let l = confirmed p w a r.wait_list in
    let act = player_confirm-found p type r w a h k ∙ confirm-act p w a r t in
    let (j, u, m, e) = confirmed-cons p w a r.wait_list h in
    elim (highest_action_lem j u m) [
      | inl (run, s) ↦ inl (
        subst SomeWait (sym e) s,
        act
            ∙ ap (λ o. act_if_all o (after_confirm p w a r))
                (ap (λ x. highest_action x none) e ∙ run),
      )
      | inr (b, q, run, c, all) ↦
          let c' = subst (IsChoice b q) (sym e) c in
          let (x, f) = found_choice b q l (AreKeyed-confirmed p w a r.wait_list h keys) c' in
          let (s, done) =
            carry_out-total b.type x (set_mahjong_state normal_gaming (after_confirm p w a r)) ps
              (record {
                all_there = v.all_there;
                at_seat = v.at_seat;
                tiles_only = v.tiles_only;
              }) in
          inr (
            b,
            q,
            x,
            s,
            c',
            subst (AllFrom (rank b.type)) (sym e) all,
            f,
            done,
            act
                ∙ ap (λ o. act_if_all o (after_confirm p w a r))
                    (ap (λ y. highest_action y none) e ∙ run)
                ∙ act-chosen b q x (after_confirm p w a r) s f done,
          )
    ]
