-- ===== src/Room/Turn/Priority.antt =====
-- Room::playerConfirmAction: when nobody wins, the choice that goes first is carried out once all have
-- confirmed.
use mahjong_server.Common.{
  ℕ, ◌≤◌, ◌≡◌, ◌⊎◌, refl, sym, ◌∙◌, ap, List, [], ◌∷◌, none, some, ltb, arith, Option-cases,
  Bool-cases, inl, inr, All,
}
use mahjong_server.Tile.{rank}
use mahjong_server.Room.State.{MahjongAction, WaitActionInfo}
use mahjong_server.Room.Turn.{Highest, higher, highest_action}

-- Every entry has confirmed an action that does not go before `n`.
abbrev pub AllFrom : ℕ → List (ℕ × WaitActionInfo) → Type 0
AllFrom n = All (λ e. (b : MahjongAction) × (e.1.confirmed_action ≡ some b) × (n ≤ rank b.type))

-- `a` is what an entry has confirmed, and `q` its player.
abbrev pub IsChoice : MahjongAction → ℕ → List (ℕ × WaitActionInfo) → Type 0
IsChoice a q [] = ⊥
IsChoice a q ((k, w) ∷ l) = ((w.confirmed_action ≡ some a) × (w.player ≡ q)) ⊎ IsChoice a q l

-- Somebody has not confirmed.
abbrev pub SomeWait : List (ℕ × WaitActionInfo) → Type 0
SomeWait [] = ⊥
SomeWait ((k, w) ∷ l) = (w.confirmed_action ≡ none) ⊎ SomeWait l

highest_wait :
    (k : ℕ) (w : WaitActionInfo) (l : List (ℕ × WaitActionInfo)) (h : Highest)
    → w.confirmed_action ≡ none
    → highest_action ((k, w) ∷ l) h ≡ none
unfolding highest_action
highest_wait k w l h e = rw (e, highest_action) refl

highest_next :
    (k : ℕ) (w : WaitActionInfo) (a : MahjongAction) (l : List (ℕ × WaitActionInfo)) (h : Highest)
    → w.confirmed_action ≡ some a
    → highest_action ((k, w) ∷ l) h ≡ highest_action l (higher h a w.player)
unfolding highest_action
highest_next k w a l h e = rw (e, highest_action) refl

-- The outcome of the search that starts from a choice already found.
abbrev Outcome : MahjongAction → ℕ → List (ℕ × WaitActionInfo) → Type 0
Outcome b p l =
    ((highest_action l (some (b, p)) ≡ none) × SomeWait l)
    ⊎ ((a : MahjongAction) × (q : ℕ) × (highest_action l (some (b, p)) ≡ some (some (a, q)))
        × (((a ≡ b) × (q ≡ p)) ⊎ IsChoice a q l)
        × (rank a.type ≤ rank b.type)
        × AllFrom (rank a.type) l)

IsChoice-in :
    (a b : MahjongAction) (q k : ℕ) (w : WaitActionInfo) (l : List (ℕ × WaitActionInfo))
    → w.confirmed_action ≡ some b
    → ((a ≡ b) × (q ≡ w.player)) ⊎ IsChoice a q l
    → IsChoice a q ((k, w) ∷ l)
IsChoice-in a b q k w l e (inl (x, y)) = inl (e ∙ ap some (sym x), sym y)
IsChoice-in a b q k w l e (inr c) = inr c

IsChoice-over :
    (a b : MahjongAction) (q p k : ℕ) (w : WaitActionInfo) (l : List (ℕ × WaitActionInfo))
    → ((a ≡ b) × (q ≡ p)) ⊎ IsChoice a q l
    → ((a ≡ b) × (q ≡ p)) ⊎ IsChoice a q ((k, w) ∷ l)
IsChoice-over a b q p k w l (inl c) = inl c
IsChoice-over a b q p k w l (inr c) = inr (inr c)

highest_from : (b : MahjongAction) (p : ℕ) (l : List (ℕ × WaitActionInfo)) → Outcome b p l
unfolding highest_action
highest_from b p [] = inr (b, p, refl, inl (refl, refl), omega arith, tt)
highest_from b p ((k, w) ∷ l) = elim (Option-cases w.confirmed_action) [
  | inl e ↦ inl (highest_wait k w l (some (b, p)) e, inl e)
  | inr (c, e) ↦ elim (Bool-cases (ltb (rank c.type) (rank b.type))) [
    | inl f ↦ elim (highest_from c w.player l) [
      | inl (run, s) ↦ inl (highest_next k w c l (some (b, p)) e ∙ rw f run, inr s)
      | inr (a, q, run, from, le, all) ↦ inr (
        a,
        q,
        highest_next k w c l (some (b, p)) e ∙ rw f run,
        inr (IsChoice-in a c q k w l e from),
        ground (arith, le),
        ((c, e, le), all),
      )
    ]
    | inr f ↦ elim (highest_from b p l) [
      | inl (run, s) ↦ inl (highest_next k w c l (some (b, p)) e ∙ rw f run, inr s)
      | inr (a, q, run, from, le, all) ↦ inr (
        a,
        q,
        highest_next k w c l (some (b, p)) e ∙ rw f run,
        IsChoice-over a b q p k w l from,
        le,
        ((c, e, ground (arith, le)), all),
      )
    ]
  ]
]

-- Of a wait list that is not empty: if somebody has not confirmed, nothing is chosen. Else a choice of
-- one of the players is taken that no other confirmed choice goes before.
pub highest_action_lem :
    (k : ℕ) (w : WaitActionInfo) (l : List (ℕ × WaitActionInfo))
    → ((highest_action ((k, w) ∷ l) none ≡ none) × SomeWait ((k, w) ∷ l))
      ⊎ ((a : MahjongAction) × (q : ℕ) × (highest_action ((k, w) ∷ l) none ≡ some (some (a, q)))
          × IsChoice a q ((k, w) ∷ l)
          × AllFrom (rank a.type) ((k, w) ∷ l))
highest_action_lem k w l = elim (Option-cases w.confirmed_action) [
  | inl e ↦ inl (highest_wait k w l none e, inl e)
  | inr (c, e) ↦ elim (highest_from c w.player l) [
    | inl (run, s) ↦ inl (highest_next k w c l none e ∙ run, inr s)
    | inr (a, q, run, from, le, all) ↦
        inr (
          a,
          q,
          highest_next k w c l none e ∙ run,
          IsChoice-in a c q k w l e from,
          ((c, e, le), all),
        )
  ]
]
