-- ===== src/Room/Turn/Confirm.antt =====
-- Room::playerConfirmAction: whose choice is carried out, and what a win does.
use mahjong_server.Common.{
  ℕ, ◌<◌, ◌≡◌, refl, ◌∙◌, ap, Bool, true, false, ◌||◌, ◌&&◌, List, [], ◌∷◌, Option, none, some,
  ◌==◌, ltb, count, arith, Bool-cases, inl, inr, All,
}
use mahjong_server.Tile.{ActionType, hu, gang, peng, pass, rank}
use mahjong_server.Stl.TxMap.{find, insert, assign, contains, is_found}
use mahjong_server.Room.State.{Room, MahjongAction, WaitActionInfo, HuInfo}
use mahjong_server.Room.Notify.{notify_all_player_hu}
use mahjong_server.Room.EndGame.{all_seated}
use mahjong_server.Room.EndGame.Money.{IsWinOf}
use mahjong_server.Room.EndGame.Close.{Distinct, IsClosed, end_game_lem}
use mahjong_server.Room.Turn.{
  find_action, is_hu, hu_info_of, add_hu, hu_players, confirm, confirm_found, confirm_waiting,
  player_confirm_action,
}

-- Whether a player is waited for with a win among what it was offered.
abbrev pub may_win : ℕ → List (ℕ × WaitActionInfo) → Bool
may_win p [] = false
may_win p ((q, w) ∷ l) = (q == p && is_found (find_action hu w.action_list)) || may_win p l

contains-insert :
    (j k : ℕ) (i : HuInfo) (m : List (ℕ × HuInfo))
    → contains j (insert k i m) ≡ ((k == j) || contains j m)
unfolding contains insert find
contains-insert j k i [] = ground arith
contains-insert j k i ((h, v) ∷ m) = ground (arith, contains-insert j k i m)

contains-add_hu :
    (j p : ℕ) (w : WaitActionInfo) (o : Option MahjongAction) (m : List (ℕ × HuInfo))
    → contains j (add_hu p w o m) ≡ ((p == j && is_found o) || contains j m)
contains-add_hu j p w none m = ground arith
contains-add_hu j p w (some a) m = ground (arith, contains-insert j p (hu_info_of p w a) m)

hu_players-may_win :
    (j : ℕ) (l : List (ℕ × WaitActionInfo)) (m : List (ℕ × HuInfo))
    → contains j (hu_players l m) ≡ (may_win j l || contains j m)
unfolding hu_players
hu_players-may_win j [] m = refl
hu_players-may_win j ((q, w) ∷ l) m =
    let o = find_action hu w.action_list in
    hu_players-may_win j l (add_hu q w o m) ∙ ground (arith, contains-add_hu j q w o m)

-- The waited-for players, and those whose tiles they wait on, sit at the table.
abbrev pub AreSeated : List ℕ → List (ℕ × WaitActionInfo) → Type 0
AreSeated ps = All (λ e. (0 < count e.0 ps) × (0 < count e.1.dropped_player ps))

abbrev AreWins : List ℕ → List (ℕ × HuInfo) → Type 0
AreWins ps = All (λ h. IsWinOf ps h.0 h.1)

insert-AreWins :
    (ps : List ℕ) (p : ℕ) (i : HuInfo) (m : List (ℕ × HuInfo))
    → IsWinOf ps p i
    → AreWins ps m
    → AreWins ps (insert p i m)
unfolding insert
insert-AreWins ps p i [] h k = (h, tt)
insert-AreWins ps p i ((q, j) ∷ m) h k = elim (Bool-cases (q == p)) [
  | inl e ↦ rw e k
  | inr e ↦ rw e (elim (Bool-cases (ltb p q)) [
    | inl f ↦ rw f (h, k)
    | inr f ↦ rw f (k.0, insert-AreWins ps p i m h k.1)
  ])
]

add_hu-AreWins :
    (ps : List ℕ) (p : ℕ) (w : WaitActionInfo) (o : Option MahjongAction) (m : List (ℕ × HuInfo))
    → 0 < count p ps
    → 0 < count w.dropped_player ps
    → AreWins ps m
    → AreWins ps (add_hu p w o m)
add_hu-AreWins ps p w none m h d k = k
add_hu-AreWins ps p w (some a) m h d k =
    insert-AreWins ps p (hu_info_of p w a) m
      (record { same = refl; winner_seated = h; dropper_seated = d }) k

hu_players-AreWins :
    (ps : List ℕ) (l : List (ℕ × WaitActionInfo)) (m : List (ℕ × HuInfo))
    → AreSeated ps l
    → AreWins ps m
    → AreWins ps (hu_players l m)
unfolding hu_players
hu_players-AreWins ps [] m h k = k
hu_players-AreWins ps ((q, w) ∷ l) m h k =
    hu_players-AreWins ps l (add_hu q w (find_action hu w.action_list) m) h.1
      (add_hu-AreWins ps q w (find_action hu w.action_list) m h.0.0 h.0.1 k)

pub find_action-type :
    (type : ActionType) (l : List MahjongAction) (a : MahjongAction)
    → find_action type l ≡ some a
    → (rank a.type == rank type) ≡ true
unfolding find_action
find_action-type type [] a h = absurd (ground arith)
find_action-type type (b ∷ l) a h = ground (arith, find_action-type type l a)

rank_of_hu : (t : ActionType) → (rank t == rank hu) ≡ true → is_hu t ≡ true
rank_of_hu hu h = refl
rank_of_hu gang h = absurd (cc)
rank_of_hu peng h = absurd (cc)
rank_of_hu pass h = absurd (cc)
rank_of_hu _ h = absurd (cc)

-- The wait list after a player has confirmed.
abbrev pub confirmed :
    ℕ → WaitActionInfo → MahjongAction → List (ℕ × WaitActionInfo) → List (ℕ × WaitActionInfo)
confirmed p w a l = assign p (record w { confirmed_action = some a }) l

may_win-confirmed :
    (q p : ℕ) (w : WaitActionInfo) (a : MahjongAction) (l : List (ℕ × WaitActionInfo))
    → find p l ≡ some w
    → may_win q (confirmed p w a l) ≡ may_win q l
unfolding find assign
may_win-confirmed q p w a [] h = refl
may_win-confirmed q p w a ((k, v) ∷ l) h = ground (arith, may_win-confirmed q p w a l)

AreSeated-confirmed :
    (ps : List ℕ) (p : ℕ) (w : WaitActionInfo) (a : MahjongAction) (l : List (ℕ × WaitActionInfo))
    → find p l ≡ some w
    → AreSeated ps l
    → AreSeated ps (confirmed p w a l)
unfolding find assign
AreSeated-confirmed ps p w a [] h s = s
AreSeated-confirmed ps p w a ((k, v) ∷ l) h s = ground (arith, AreSeated-confirmed ps p w a l)

-- The end of a game that somebody has won: exactly those win who are waited for with a win among what
-- they were offered, all sit at the table, and the game is closed for them.
pub record IsWon (ps : List ℕ) (r s : Room) : Type 0 where
  pub winners : List (ℕ × HuInfo)
  pub all_winners : (q : ℕ) → contains q winners ≡ may_win q r.wait_list
  pub closed : IsClosed winners ps (notify_all_player_hu winners r) s

none_yet : (q : ℕ) (b : Bool) → (b || contains {V = HuInfo} q []) ≡ b
unfolding contains find
none_yet q true = refl
none_yet q false = refl

confirm-hu :
    (p : ℕ) (w : WaitActionInfo) (a : MahjongAction) (r : Room) (ps : List ℕ)
    → find p r.wait_list ≡ some w
    → is_hu a.type ≡ true
    → all_seated r.position_list ≡ some ps
    → Distinct ps
    → AreSeated ps r.wait_list
    → (s : Room) × (confirm p w a r ≡ some s) × IsWon ps r s
unfolding notify_all_player_hu
confirm-hu p w a r ps h t e d k =
    let l = confirmed p w a r.wait_list in
    let hus = hu_players l [] in
    let (s, run, v) =
      end_game_lem hus (notify_all_player_hu hus (record r { wait_list = l })) ps e d
        (hu_players-AreWins ps l [] (AreSeated-confirmed ps p w a r.wait_list h k) tt) in
    (
      s,
      rw (t, confirm) run,
      record {
        winners = hus;
        all_winners = λ q.
            hu_players-may_win q l []
            ∙ none_yet q (may_win q l)
            ∙ may_win-confirmed q p w a r.wait_list h;
        closed = record {
          deltas = v.deltas;
          phase = v.phase;
          no_wait = v.no_wait;
          told = v.told;
          cancel_out = v.cancel_out;
          bankers = v.bankers;
          seats_same = v.seats_same;
          pool_same = v.pool_same;
        };
      },
    )

pub player_confirm-found :
    (p : ℕ) (type : ActionType) (r : Room) (w : WaitActionInfo) (a : MahjongAction)
    → find p r.wait_list ≡ some w
    → find_action type w.action_list ≡ some a
    → player_confirm_action p type r ≡ confirm p w a r
unfolding player_confirm_action
player_confirm-found p type r w a h k =
    ap (λ o. confirm_waiting p type o r) h ∙ ap (λ o. confirm_found p w o r) k

-- A player who is waited for and may win ends the game by choosing to win, whatever the others have
-- chosen or not: with distinct players at all the seats, and those who are waited for and those whose
-- tiles they wait on at the table, it does not fail, and everybody who may win wins.
pub confirm-win :
    (p : ℕ) (r : Room) (w : WaitActionInfo) (a : MahjongAction) (ps : List ℕ)
    → find p r.wait_list ≡ some w
    → find_action hu w.action_list ≡ some a
    → all_seated r.position_list ≡ some ps
    → Distinct ps
    → AreSeated ps r.wait_list
    → (s : Room) × (player_confirm_action p hu r ≡ some s) × IsWon ps r s
confirm-win p r w a ps h k e d m =
    let (s, run, v) =
      confirm-hu p w a r ps h (rank_of_hu a.type (find_action-type hu w.action_list a k)) e d m in
    (s, player_confirm-found p hu r w a h k ∙ run, v)
