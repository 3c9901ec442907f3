-- ===== src/Room/EndGame.antt =====
-- Room::endGame: who is banker next, and who pays whom.
pub mod Money
pub mod Close
pub mod Amounts
use mahjong_server.Common.{
  ℕ, zero, suc, ◌+◌, ◌-◌, ◌*◌, Bool, true, false, List, [], ◌∷◌, Option, none, some, ◌==◌,
  if◌then◌else◌, length,
}
use mahjong_server.Common.Int.{ℤ, pos, ◌+ℤ◌, ◌-ℤ◌}
use mahjong_server.Tile.{HuType, get_hu_multiple}
use mahjong_server.Stl.TxMap.{find, insert, assign, value_or}
use mahjong_server.Room.State.{Room, HuInfo, ending, modify, ◌>>=◌}
use mahjong_server.Room.Notify.{notify_all_player_mahjong_end}
use mahjong_server.Room.Seats.{set_mahjong_state}

-- The players at all the seats; a NULL seat is read through by the source.
unfoldable pub all_seated : List (ℕ × Option ℕ) → Option (List ℕ)
all_seated [] = some []
all_seated ((k, none) ∷ seats) = none
all_seated ((k, some p) ∷ seats) = elim (all_seated seats) [ none ↦ none | some ps ↦ some (p ∷ ps) ]

abbrev pub Deltas : Type 0
Deltas = List (ℕ × ℤ)

pub zero_deltas : List ℕ → Deltas → Deltas
zero_deltas [] m = m
zero_deltas (p ∷ ps) m = zero_deltas ps (insert p (pos 0) m)

-- `moneyDeltaList[p] += d`: a missing key starts from 0.
pub add_delta : ℕ → ℤ → Deltas → Deltas
add_delta p d m =
    let present = insert p (pos 0) m in assign p (value_or (find p present) (pos 0) +ℤ d) present

pub sub_delta : ℕ → ℤ → Deltas → Deltas
sub_delta p d m =
    let present = insert p (pos 0) m in assign p (value_or (find p present) (pos 0) -ℤ d) present

-- Who wins by its own draw gets the sum from each of the others.
pub self_drawn : ℕ → ℕ → ℕ → Deltas → Deltas
self_drawn winner seats money [] = []
self_drawn winner seats money ((p, d) ∷ m) =
    (p, if p == winner then d +ℤ pos ((seats - 1) * money) else d -ℤ pos money)
    ∷ self_drawn winner seats money m

-- The sum of the multiples is computed by the source and not used for the money.
pub sum_multiple : List HuType → ℕ
sum_multiple [] = 0
sum_multiple (h ∷ hs) = get_hu_multiple h + sum_multiple hs

abbrev pub money_of : HuInfo → ℕ
money_of i = 100 * length i.hu_list

pub settle_one : ℕ → ℕ → HuInfo → Deltas → Deltas
settle_one seats winner i m =
    if i.dropped_player == i.hu_player
    then self_drawn winner seats (money_of i) m
    else sub_delta i.dropped_player (pos (money_of i)) (add_delta winner (pos (money_of i)) m)

pub settle : ℕ → List (ℕ × HuInfo) → Deltas → Deltas
settle seats [] m = m
settle seats ((winner, i) ∷ hus) m = settle seats hus (settle_one seats winner i m)

pub name_banker : ℕ → List ℕ → Room → Room
name_banker banker [] r = r
name_banker banker (p ∷ ps) r =
    name_banker banker ps (modify p (λ c. record c { banker = banker == p }) r)

-- One winner is the next banker; of several, the player who dropped the tile; of none, as it was.
abbrev pub next_banker : List (ℕ × HuInfo) → List ℕ → Room → Room
next_banker [] ps r = r
next_banker ((winner, i) ∷ []) ps r =
    name_banker winner ps (modify winner (λ c. record c { banker = true }) r)
next_banker ((winner, i) ∷ j ∷ hus) ps r = name_banker i.dropped_player ps r

unfoldable pub end_game : List (ℕ × HuInfo) → Room → Option Room
unfolding set_mahjong_state notify_all_player_mahjong_end settle settle_one zero_deltas all_seated
    name_banker
end_game hu_player_list r = do
  ps ← all_seated r.position_list
  let r' = next_banker hu_player_list ps (set_mahjong_state ending r)
  let deltas = settle (length r.position_list) hu_player_list (zero_deltas ps [])
  some (notify_all_player_mahjong_end deltas r')
