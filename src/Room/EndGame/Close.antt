-- ===== src/Room/EndGame/Close.antt =====
-- Room::endGame as a whole: it comes to its end, the changes cancel out, and the banker is named.
use mahjong_server.Common.{
  ℕ, ◌+◌, ◌≤◌, ◌<◌, ◌≡◌, refl, ◌∙◌, ap, Bool, true, false, List, [], ◌∷◌, ◌++◌, map, Option, none,
  some, ◌==◌, ltb, if◌then◌else◌, length, count, arith, All, Option-cases, Bool-cases, inl, inr,
}
use mahjong_server.Common.Int.{ℤ, pos, pos_part, neg_part, eq_of_parts}
use mahjong_server.Stl.TxMap.{find, insert, contains, size}
use mahjong_server.Stl.TxMap.Laws.{IsOrdered, insert-IsOrdered}
use mahjong_server.Room.State.{Room, HuInfo, ending, mahjong_end, modify}
use mahjong_server.Room.Notify.{seated, notify_all_player_mahjong_end}
use mahjong_server.Room.Seats.{set_mahjong_state, clear_wait_list}
use mahjong_server.Room.EndGame.{
  Deltas, zero_deltas, all_seated, settle, name_banker, next_banker, end_game,
}
use mahjong_server.Room.EndGame.Money.{
  total, IsTable, IsWinOf, settle-IsTable, size-insert, total-insert,
}

-- No player sits twice.
abbrev pub Distinct : List ℕ → Type 0
Distinct ps = (p : ℕ) → count p ps ≤ 1

pub contains-insert :
    (j k : ℕ) (v : ℤ) (m : Deltas)
    → contains j (insert k v m) ≡ (if k == j then true else contains j m)
unfolding contains insert find
contains-insert j k v [] = ground arith
contains-insert j k v ((i, d) ∷ m) = ground (arith, contains-insert j k v m)

zero_deltas-IsOrdered : (ps : List ℕ) (m : Deltas) → IsOrdered 0 m → IsOrdered 0 (zero_deltas ps m)
unfolding zero_deltas
zero_deltas-IsOrdered [] m o = o
zero_deltas-IsOrdered (p ∷ ps) m o =
    zero_deltas-IsOrdered ps (insert p (pos 0) m) (insert-IsOrdered 0 p (pos 0) m (omega arith) o)

contains-zero_deltas :
    (j : ℕ) (ps : List ℕ) (m : Deltas)
    → contains j (zero_deltas ps m) ≡ (if ltb 0 (count j ps) then true else contains j m)
unfolding zero_deltas
contains-zero_deltas j [] m = refl
contains-zero_deltas j (p ∷ ps) m =
    ground (arith, contains-zero_deltas j ps (insert p (pos 0) m), contains-insert j p (pos 0) m)

size-zero_deltas :
    (ps : List ℕ) (m : Deltas)
    → Distinct ps
    → ((p : ℕ) → 0 < count p ps → contains p m ≡ false)
    → size (zero_deltas ps m) ≡ length ps + size m
unfolding zero_deltas
size-zero_deltas [] m d f = omega arith
size-zero_deltas (p ∷ ps) m d f =
    let m' = insert p (pos 0) m in
    omega (
      arith,
      size-insert 0 p (pos 0) m (f p (ground arith)),
      size-zero_deltas ps m' (λ q. omega (arith, d q))
          (λ q h. ground (arith, contains-insert q p (pos 0) m, f q, d q)),
    )

total-zero_deltas :
    (ps : List ℕ) (m : Deltas)
    → pos_part (total m) ≡ neg_part (total m)
    → pos_part (total (zero_deltas ps m)) ≡ neg_part (total (zero_deltas ps m))
unfolding zero_deltas
total-zero_deltas [] m h = h
total-zero_deltas (p ∷ ps) m h =
    total-zero_deltas ps (insert p (pos 0) m) (omega (arith, h, total-insert p m))

pub zero_deltas-IsTable : (ps : List ℕ) → Distinct ps → IsTable ps (zero_deltas ps [])
unfolding size contains find
zero_deltas-IsTable ps d = record {
  ordered = zero_deltas-IsOrdered ps [] tt;
  sizes = omega (arith, size-zero_deltas ps [] d (λ p h. refl));
  present = λ p h. ground (arith, contains-zero_deltas p ps []);
  balanced = total-zero_deltas ps [] refl;
}

all_seated-seated :
    (seats : List (ℕ × Option ℕ)) (ps : List ℕ)
    → all_seated seats ≡ some ps
    → (seated seats ≡ ps) × (length seats ≡ length ps)
unfolding all_seated seated
all_seated-seated [] ps h = ground arith
all_seated-seated ((k, none) ∷ seats) ps h = absurd (cc)
all_seated-seated ((k, some p) ∷ seats) ps h = elim (Option-cases (all_seated seats)) [
  | inl e ↦ absurd (ground arith)
  | inr (qs, e) ↦ let (f, g) = all_seated-seated seats qs e in ground (arith, f, g)
]

-- Naming a banker changes nothing but the players' data.
name_banker-only :
    (b : ℕ) (ps : List ℕ) (r : Room)
    → name_banker b ps r ≡ record r { players = (name_banker b ps r).players }
unfolding name_banker
name_banker-only b [] r = refl
name_banker-only b (p ∷ ps) r =
    name_banker-only b ps (modify p (λ c. record c { banker = b == p }) r)

banker-modify :
    (b p q : ℕ) (r : Room)
    → ((modify p (λ c. record c { banker = b == p }) r).players q).banker
      ≡ (if q == p then b == q else (r.players q).banker)
banker-modify b p q r = elim (Bool-cases (q == p)) [
  | inl e ↦ rw e (ground arith)
  | inr e ↦ rw e refl
]

name_banker-players :
    (b q : ℕ) (ps : List ℕ) (r : Room)
    → ((name_banker b ps r).players q).banker
      ≡ (if ltb 0 (count q ps) then b == q else (r.players q).banker)
unfolding name_banker
name_banker-players b q [] r = refl
name_banker-players b q (p ∷ ps) r =
    let s = modify p (λ c. record c { banker = b == p }) r in
    name_banker-players b q ps s ∙ ground (arith, banker-modify b p q r)

next_banker-only :
    (hus : List (ℕ × HuInfo)) (ps : List ℕ) (r : Room)
    → next_banker hus ps r ≡ record r { players = (next_banker hus ps r).players }
next_banker-only [] ps r = refl
next_banker-only ((w, i) ∷ []) ps r =
    name_banker-only w ps (modify w (λ c. record c { banker = true }) r)
next_banker-only ((w, i) ∷ j ∷ hus) ps r = name_banker-only i.dropped_player ps r

-- Whether a player is banker after the game, where it was `b` before.
abbrev pub banker_after : List (ℕ × HuInfo) → ℕ → Bool → Bool
banker_after [] p b = b
banker_after ((w, i) ∷ []) p b = w == p
banker_after ((w, i) ∷ j ∷ hus) p b = i.dropped_player == p

next_banker-players :
    (hus : List (ℕ × HuInfo)) (ps : List ℕ) (r : Room) (p : ℕ)
    → 0 < count p ps
    → ((next_banker hus ps r).players p).banker ≡ banker_after hus p (r.players p).banker
next_banker-players [] ps r p h = refl
next_banker-players ((w, i) ∷ []) ps r p h =
    ground (arith, name_banker-players w p ps (modify w (λ c. record c { banker = true }) r))
next_banker-players ((w, i) ∷ j ∷ hus) ps r p h =
    ground (arith, name_banker-players i.dropped_player p ps r)

-- What a closed game is: the phase is over, nobody is waited for, each player at the table has been
-- told the same changes, which cancel out, the next banker is marked, and the tiles and seats are as before.
pub record IsClosed (hus : List (ℕ × HuInfo)) (ps : List ℕ) (r s : Room) : Type 0 where
  pub deltas : Deltas
  pub phase : s.play_state ≡ ending
  pub no_wait : s.wait_list ≡ []
  pub told : s.sent ≡ r.sent ++ map (λ p. (p, mahjong_end deltas)) ps
  pub cancel_out : total deltas ≡ pos 0
  pub bankers :
      (p : ℕ) → 0 < count p ps → (s.players p).banker ≡ banker_after hus p (r.players p).banker
  pub seats_same : s.position_list ≡ r.position_list
  pub pool_same : s.mahjong_pool ≡ r.mahjong_pool

-- The changes that the players are told.
abbrev pub changes : List ℕ → List (ℕ × HuInfo) → Deltas
changes ps hus = settle (length ps) hus (zero_deltas ps [])

closing :
    (hus : List (ℕ × HuInfo)) (r : Room) (ps : List ℕ)
    → all_seated r.position_list ≡ some ps
    → end_game hus r
      ≡ some (
          notify_all_player_mahjong_end
            (settle (length r.position_list) hus (zero_deltas ps []))
            (next_banker hus ps (set_mahjong_state ending r)))
unfolding end_game
closing hus r ps e = rw (e, end_game) refl

-- With a player at each seat, no player at two, and all winners and the players whose tile they won
-- by seated, the end of the game does not fail and closes the game.
pub end_game_lem :
    (hus : List (ℕ × HuInfo)) (r : Room) (ps : List ℕ)
    → all_seated r.position_list ≡ some ps
    → Distinct ps
    → All (λ h. IsWinOf ps h.0 h.1) hus
    → (s : Room) × (end_game hus r ≡ some s) × IsClosed hus ps r s
unfolding notify_all_player_mahjong_end set_mahjong_state clear_wait_list
end_game_lem hus r ps e d h =
    let t = settle-IsTable ps hus (zero_deltas ps []) h (zero_deltas-IsTable ps d) in
    let (f, g) = all_seated-seated r.position_list ps e in
    let q = set_mahjong_state ending r in
    let n = next_banker hus ps q in
    let only = next_banker-only hus ps q in
    (
      notify_all_player_mahjong_end (changes ps hus) n,
      closing hus r ps e
          ∙ ap (λ k. some (notify_all_player_mahjong_end (settle k hus (zero_deltas ps [])) n)) g,
      record {
        deltas = changes ps hus;
        phase = ap (λ x. x.play_state) only;
        no_wait = ap (λ x. x.wait_list) only;
        told =
            ap
              (λ x. x.sent ++ map (λ p. (p, mahjong_end (changes ps hus))) (seated x.position_list))
              only
            ∙ ap (λ l. r.sent ++ map (λ p. (p, mahjong_end (changes ps hus))) l) f;
        cancel_out = eq_of_parts (total (changes ps hus)) (pos 0) (omega (arith, t.balanced));
        bankers = next_banker-players hus ps q;
        seats_same = ap (λ x. x.position_list) only;
        pool_same = ap (λ x. x.mahjong_pool) only;
      },
    )

-- A game that nobody wins ends too, and leaves all the players' data alone.
pub drawn_game :
    (r : Room) (ps : List ℕ)
    → all_seated r.position_list ≡ some ps
    → (s : Room) × (end_game [] r ≡ some s)
      × (s.play_state ≡ ending)
      × (s.players ≡ r.players)
      × (s.mahjong_pool ≡ r.mahjong_pool)
      × (s.position_list ≡ r.position_list)
unfolding notify_all_player_mahjong_end set_mahjong_state clear_wait_list
drawn_game r ps e = (_, closing [] r ps e, refl, refl, refl, refl)
