-- ===== src/Room/Seats/Order.antt =====
-- Room::addPlayer and Room::removePlayer: seats and the list of players.
use mahjong_server.Common.{
  ℕ, ◌+◌, ◌≤◌, ◌<◌, ◌≡◌, ◌≢◌, ◌⊎◌, refl, ap, List, [], ◌∷◌, Option, none, some, ◌==◌, if◌then◌else◌,
  arith, inl, inr, ==-refl,
}
use mahjong_server.Stl.TxMap.{find, insert, erase}
use mahjong_server.Stl.TxMap.Laws.{IsOrdered, find-below}
use mahjong_server.Room.State.{Room}
use mahjong_server.Room.Seats.{take_seat, add_player, free_seat, free_position, remove_player}

abbrev Seats : Type 0
Seats = List (ℕ × Option ℕ)

-- What taking a seat does: the first empty seat goes to the player and the others stay, or all
-- seats are taken and stay.
abbrev pub Takes : ℕ → Seats → Type 0
Takes player seats =
    ((k : ℕ) × ((take_seat player seats).0 ≡ some k)
      × (find k seats ≡ some none)
      × ((j : ℕ) → j < k → find j seats ≢ some none)
      × ((j : ℕ)
          → find j (take_seat player seats).1
            ≡ (if j == k then some (some player) else find j seats)))
    ⊎ (((take_seat player seats).0 ≡ none)
        × ((take_seat player seats).1 ≡ seats)
        × ((j : ℕ) → find j seats ≢ some none))

take_seat-Takes : (b player : ℕ) (seats : Seats) → IsOrdered b seats → Takes player seats
unfolding take_seat find
take_seat-Takes b player [] o = inr (refl, refl, λ j e. ground arith)
take_seat-Takes b player ((k, none) ∷ seats) o = inl (
  k,
  refl,
  rw (==-refl k) refl,
  λ j l e. ground (arith, find-below j (k + 1) seats),
  λ j. ground arith,
)
take_seat-Takes b player ((k, some p) ∷ seats) o = elim (take_seat-Takes (k + 1) player seats o.1) [
  | inl (i, e, f, g, h) ↦ inl (
    i,
    e,
    ground (arith, f, find-below i (k + 1) seats),
    λ j l z. ground (arith, g j, find-below j (k + 1) seats),
    λ j. ground (arith, h j, f, find-below i (k + 1) seats),
  )
  | inr (e, f, g) ↦ inr (e, ap (◌∷◌ (k, some p)) f, λ j. ground (arith, g j))
]

-- The seat that was taken stands behind the first one.
free-later :
    (b player k : ℕ) (o : Option ℕ) (at : Option ℕ) (taken seats : Seats)
    → ((i : ℕ) → at ≡ some i → k < i)
    → free_position player at taken ≡ seats
    → free_position player at ((k, o) ∷ taken) ≡ (k, o) ∷ seats
unfolding free_seat
free-later b player k o none taken seats h e = ap (◌∷◌ (k, o)) e
free-later b player k o (some i) taken seats h e = ground (arith, h i, e)

taken-above :
    (b player : ℕ) (seats : Seats) (i : ℕ)
    → IsOrdered b seats
    → (take_seat player seats).0 ≡ some i
    → b ≤ i
unfolding take_seat
taken-above b player [] i o e = absurd (ground arith)
taken-above b player ((k, none) ∷ seats) i o e = ground arith
taken-above b player ((k, some p) ∷ seats) i o e =
    ground (arith, taken-above (k + 1) player seats i)

free-take :
    (b player : ℕ) (seats : Seats)
    → IsOrdered b seats
    → free_position player (take_seat player seats).0 (take_seat player seats).1 ≡ seats
unfolding take_seat free_seat
free-take b player [] o = refl
free-take b player ((k, none) ∷ seats) o = ground arith
free-take b player ((k, some p) ∷ seats) o =
    free-later b player k (some p) (take_seat player seats).0 (take_seat player seats).1 seats
      (λ i e. omega (arith, taken-above (k + 1) player seats i o.1 e))
      (free-take (k + 1) player seats o.1)

erase-insert :
    (b k v : ℕ) (m : List (ℕ × ℕ)) → IsOrdered b m → find k m ≡ none → erase k (insert k v m) ≡ m
unfolding erase insert find
erase-insert b k v [] o h = ground arith
erase-insert b k v ((j, w) ∷ m) o h = ground (arith, erase-insert (j + 1) k v m)

-- On seats and a player list in order, a player who is not on the list and leaves right after it has
-- joined leaves the seats and the list exactly as they were, whether a seat was empty or not.
pub remove_player-add_player :
    (player : ℕ) (r : Room)
    → IsOrdered 0 r.position_list
    → IsOrdered 0 r.player_list
    → find (r.players player).guid r.player_list ≡ none
    → ((remove_player player (add_player player r)).position_list ≡ r.position_list)
      × ((remove_player player (add_player player r)).player_list ≡ r.player_list)
      × (((remove_player player (add_player player r)).players player).position ≡ none)
unfolding remove_player add_player
remove_player-add_player player r o p h = (
  rw (==-refl player) (free-take 0 player r.position_list o),
  rw (==-refl player) (erase-insert 0 (r.players player).guid player r.player_list p h),
  rw (==-refl player) refl,
)

-- Joining gives the player the first empty seat, and the other seats stay; where all are taken, the
-- seats stay and the player has no position.
pub add_player_lem :
    (player : ℕ) (r : Room)
    → IsOrdered 0 r.position_list
    → ((k : ℕ) × (((add_player player r).players player).position ≡ some k)
        × (find k r.position_list ≡ some none)
        × ((j : ℕ) → j < k → find j r.position_list ≢ some none)
        × ((j : ℕ)
            → find j (add_player player r).position_list
              ≡ (if j == k then some (some player) else find j r.position_list)))
      ⊎ ((((add_player player r).players player).position ≡ none)
          × ((add_player player r).position_list ≡ r.position_list)
          × ((j : ℕ) → find j r.position_list ≢ some none))
unfolding add_player
add_player_lem player r o = rw (==-refl player) (take_seat-Takes 0 player r.position_list o)
