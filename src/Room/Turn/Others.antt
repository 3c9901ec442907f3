-- ===== src/Room/Turn/Others.antt =====
-- Room::notifyPlayerDropped: which of the others may act on a dropped tile, and that the loop over them
-- finds out.
use mahjong_server.Common.{
  subst, ℕ, ◌≤◌, ◌<◌, ◌≡◌, ◌≢◌, ◌⊎◌, refl, sym, ◌∙◌, ap, Bool, true, false, List, [], ◌∷◌, ◌++◌,
  some, ◌==◌, if◌then◌else◌, count, arith, Bool-cases, inl, inr, All, leb-cases,
}
use mahjong_server.Tile.{gang, peng, pass}
use mahjong_server.Hand.{can_hu_with}
use mahjong_server.Hand.Meld.{can_gang, can_peng, claim_lem}
use mahjong_server.Hand.Kinds.{generate_hu_type-total_other}
use mahjong_server.Player.{CharacterData}
use mahjong_server.Room.State.{Room, MahjongAction}
use mahjong_server.Room.Turn.{
  action, hu_action, with_pass, ask_player_action, other_actions, is_nonempty, ask_others,
}
use mahjong_server.Room.Turn.Ask.{Keeps, ask_player_action-Keeps}

-- A player may win with the tile, or holds two of it at least.
abbrev pub MayAct : ℕ → CharacterData → Type 0
MayAct mah c = (can_hu_with c.hand_in mah ≡ true) ⊎ (2 ≤ count mah c.hand_in)

abbrev pub CannotAct : ℕ → CharacterData → Type 0
CannotAct mah c = (can_hu_with c.hand_in mah ≡ false) × (count mah c.hand_in < 2)

-- One of the others on the list may act, or none of them.
abbrev pub Somebody : ℕ → ℕ → (ℕ → CharacterData) → List (ℕ × ℕ) → Type 0
Somebody player mah players [] = ⊥
Somebody player mah players ((g, q) ∷ l) =
    ((q ≢ player) × MayAct mah (players q)) ⊎ Somebody player mah players l

abbrev pub Nobody : ℕ → ℕ → (ℕ → CharacterData) → List (ℕ × ℕ) → Type 0
Nobody player mah players = All (λ m. m.1 ≢ player → CannotAct mah (players m.1))

claims_nonempty :
    (x a b : MahjongAction) (g p : Bool)
    → is_nonempty (with_pass x ((if g then a ∷ [] else []) ++ (if p then b ∷ [] else [])))
      ≡ (if g then true else p)
claims_nonempty x a b true p = refl
claims_nonempty x a b false true = refl
claims_nonempty x a b false false = refl

abbrev Answers : ℕ → CharacterData → List MahjongAction → Type 0
Answers mah c l =
    ((is_nonempty l ≡ true) × MayAct mah c) ⊎ ((is_nonempty l ≡ false) × CannotAct mah c)

abbrev claims : ℕ → ℕ → ℕ → CharacterData → List MahjongAction → List MahjongAction
claims q player mah c hus = with_pass (action pass q player mah) (
    hus
    ++ (if can_gang c.hand_in mah then action gang q player mah ∷ [] else [])
    ++ (if can_peng c.hand_in mah then action peng q player mah ∷ [] else []))

other_actions_lem :
    (q player mah : ℕ) (c : CharacterData)
    → c.hand_in ≢ []
    → (l : List MahjongAction) × (other_actions q player mah c ≡ some l) × Answers mah c l
unfolding other_actions
other_actions_lem q player mah c h = elim (Bool-cases (can_hu_with c.hand_in mah)) [
  | inl e ↦
      let (hus, f) = generate_hu_type-total_other c.hand_in mah c.peng_gang_list false h in
      (
        claims q player mah c (hu_action q player mah hus ∷ []),
        rw (e, other_actions) (rw (f, other_actions) refl),
        inl (refl, inl e),
      )
  | inr e ↦ (
    claims q player mah c [],
    rw (e, other_actions) refl,
    let n =
          claims_nonempty (action pass q player mah) (action gang q player mah)
            (action peng q player mah) (can_gang c.hand_in mah) (can_peng c.hand_in mah) in
        let k = claim_lem c.hand_in mah in
        elim (leb-cases 2 (count mah c.hand_in)) [
          | inl le ↦ inl (n ∙ ground (arith, k), inr le)
          | inr lt ↦ inr (n ∙ ground (arith, k), (e, lt))
        ],
  )
]

Keeps-trans : (r s t : Room) → Keeps r s → Keeps s t → Keeps r t
Keeps-trans r s t v w = record {
  pool = w.pool ∙ v.pool;
  players = w.players ∙ v.players;
  seats = w.seats ∙ v.seats;
  list = w.list ∙ v.list;
}

-- Everybody on the list but `player` holds a tile.
abbrev pub OthersHold : ℕ → Room → List (ℕ × ℕ) → Type 0
OthersHold player r = All (λ m. m.1 ≢ player → (r.players m.1).hand_in ≢ [])

OthersHold-Keeps :
    (player : ℕ) (r s : Room) (l : List (ℕ × ℕ))
    → Keeps r s
    → OthersHold player r l
    → OthersHold player s l
OthersHold-Keeps player r s [] v h = tt
OthersHold-Keeps player r s ((g, q) ∷ l) v h = (
  λ ne e. h.0 ne (ap (λ f. (f q).hand_in) (sym v.players) ∙ e),
  OthersHold-Keeps player r s l v h.1,
)

same_room : (r : Room) → Keeps r r
same_room r = record { pool = refl; players = refl; seats = refl; list = refl }

-- Whether somebody acts, where `b` says that somebody did before.
abbrev pub Asked : ℕ → ℕ → Room → List (ℕ × ℕ) → Bool → Bool → Type 0
Asked player mah r l b c =
    ((c ≡ true) × ((b ≡ true) ⊎ Somebody player mah r.players l))
    ⊎ ((c ≡ false) × (b ≡ false) × Nobody player mah r.players l)

Asked-self :
    (player mah g q : ℕ) (r : Room) (l : List (ℕ × ℕ)) (b c : Bool)
    → ¬ (q ≢ player)
    → Asked player mah r l b c
    → Asked player mah r ((g, q) ∷ l) b c
Asked-self player mah g q r l b c self (inl (e, inl f)) = inl (e, inl f)
Asked-self player mah g q r l b c self (inl (e, inr f)) = inl (e, inr (inr f))
Asked-self player mah g q r l b c self (inr (e, f, h)) = inr (e, f, (λ ne. absurd (self ne), h))

Asked-next :
    (player mah g q : ℕ) (r : Room) (l : List (ℕ × ℕ)) (b n c : Bool)
    → q ≢ player
    → ((n ≡ true) × MayAct mah (r.players q)) ⊎ ((n ≡ false) × CannotAct mah (r.players q))
    → Asked player mah r l (if n then true else b) c
    → Asked player mah r ((g, q) ∷ l) b c
Asked-next player mah g q r l b n c ne (inl (e, acts)) (inl (f, h)) = inl (f, inr (inl (ne, acts)))
Asked-next player mah g q r l b n c ne (inl (e, acts)) (inr (f, h, others)) = absurd (ground arith)
Asked-next player mah g q r l b n c ne (inr (e, idle)) (inl (f, inl h)) =
    inl (f, inl (ground arith))
Asked-next player mah g q r l b n c ne (inr (e, idle)) (inl (f, inr h)) = inl (f, inr (inr h))
Asked-next player mah g q r l b n c ne (inr (e, idle)) (inr (f, h, others)) =
    inr (f, ground arith, (λ other. idle, others))

pub ask_others_lem :
    (player mah : ℕ) (l : List (ℕ × ℕ)) (b : Bool) (r : Room)
    → OthersHold player r l
    → (c : Bool) × (s : Room) × (ask_others player mah l b r ≡ some (c, s))
      × Keeps r s
      × Asked player mah r l b c
unfolding ask_others
ask_others_lem player mah [] true r h = (true, r, refl, same_room r, inl (refl, inl refl))
ask_others_lem player mah [] false r h = (false, r, refl, same_room r, inr (refl, refl, tt))
ask_others_lem player mah ((g, q) ∷ l) b r h = elim (Bool-cases (q == player)) [
  | inl e ↦
      let (c, s, run, v, w) = ask_others_lem player mah l b r h.1 in
      (
        c,
        s,
        rw (e, ask_others) run,
        v,
        Asked-self player mah g q r l b c (λ ne. absurd (ground arith)) w,
      )
  | inr e ↦
      let ne : q ≢ player = λ k. ground arith in
      let (actions, f, answers) = other_actions_lem q player mah (r.players q) (h.0 ne) in
      let t = ask_player_action q player mah actions r in
      let w = ask_player_action-Keeps q player mah actions r in
      let more = if is_nonempty actions then true else b in
      let (c, s, run, v, asked) =
        ask_others_lem player mah l more t (OthersHold-Keeps player r t l w h.1) in
      let back =
        subst
          (λ ps.
            ((c ≡ true) × ((more ≡ true) ⊎ Somebody player mah ps l))
            ⊎ ((c ≡ false) × (more ≡ false) × Nobody player mah ps l))
          w.players asked in
      (
        c,
        s,
        rw (e, ask_others) (rw (f, ask_others) run),
        Keeps-trans r t s w v,
        Asked-next player mah g q r l b (is_nonempty actions) c ne answers back,
      )
]
