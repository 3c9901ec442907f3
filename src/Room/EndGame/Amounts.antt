-- ===== src/Room/EndGame/Amounts.antt =====
-- Room::endGame: how much a single win moves, player by player.
use mahjong_server.Common.{
  ℕ, ◌-◌, ◌*◌, ◌<◌, ◌≡◌, ◌∙◌, ap, true, false, List, [], ◌∷◌, some, ◌==◌, if◌then◌else◌, length,
  count, arith, Bool-cases, inl, inr,
}
use mahjong_server.Common.Int.{ℤ, pos, ◌+ℤ◌, ◌-ℤ◌, eq_of_parts, +ℤ_parts}
use mahjong_server.Stl.TxMap.{find, insert, assign, contains, value_or}
use mahjong_server.Stl.TxMap.Laws.{
  IsOrdered, find-assign, find-insert, insert-IsOrdered, assign-IsOrdered,
}
use mahjong_server.Room.State.{HuInfo}
use mahjong_server.Room.EndGame.{
  Deltas, sub_delta, zero_deltas, self_drawn, money_of, settle, settle_one,
}
use mahjong_server.Room.EndGame.Money.{
  IsTable, IsWinOf, moved, add_delta-present, sub_delta-present, contains-assign,
}
use mahjong_server.Room.EndGame.Close.{Distinct, changes, zero_deltas-IsTable}

-- Every entry is zero.
abbrev AllZero : Deltas → Type 0
AllZero m = (j : ℕ) → contains j m ≡ true → find j m ≡ some (pos 0)

insert-AllZero : (k : ℕ) (m : Deltas) → IsOrdered 0 m → AllZero m → AllZero (insert k (pos 0) m)
unfolding contains
insert-AllZero k m o z j h = ground (arith, find-insert 0 k j (pos 0) m, z j, z k)

find-self_drawn-value :
    (j w seats money : ℕ) (m : Deltas)
    → find j m ≡ some (pos 0)
    → find j (self_drawn w seats money m)
      ≡ some (if j == w then pos 0 +ℤ pos ((seats - 1) * money) else pos 0 -ℤ pos money)
unfolding find self_drawn
find-self_drawn-value j w seats money [] h = absurd (cc)
find-self_drawn-value j w seats money ((i, d) ∷ m) h =
    ground (arith, find-self_drawn-value j w seats money m)

zero_deltas-AllZero :
    (ps : List ℕ) (m : Deltas) → IsOrdered 0 m → AllZero m → AllZero (zero_deltas ps m)
unfolding zero_deltas
zero_deltas-AllZero [] m o z = z
zero_deltas-AllZero (p ∷ ps) m o z =
    zero_deltas-AllZero ps (insert p (pos 0) m) (insert-IsOrdered 0 p (pos 0) m (omega arith) o)
      (insert-AllZero p m o z)

zero_at :
    (ps : List ℕ)
    → Distinct ps
    → (j : ℕ) → 0 < count j ps
    → find j (zero_deltas ps []) ≡ some (pos 0)
unfolding contains find
zero_at ps d j h =
    zero_deltas-AllZero ps [] tt (λ k l. absurd (ground arith)) j
      ((zero_deltas-IsTable ps d).present j h)

zero_plus : (n : ℕ) → pos 0 +ℤ pos n ≡ pos n
zero_plus n = eq_of_parts (pos 0 +ℤ pos n) (pos n) (omega (arith, +ℤ_parts (pos 0) (pos n)))

-- What one player gains by a single win that moves `money`.
abbrev pub gain : ℕ → ℕ → ℕ → ℕ → ℕ → ℤ
gain seats winner dropper money j =
    if dropper == winner
    then (if j == winner then pos ((seats - 1) * money) else pos 0 -ℤ pos money)
    else if j == winner
    then pos money
    else if j == dropper
    then pos 0 -ℤ pos money
    else pos 0

moved-find :
    (ps : List ℕ) (w d money j : ℕ) (m : Deltas)
    → IsTable ps m
    → ((k : ℕ) → 0 < count k ps → find k m ≡ some (pos 0))
    → 0 < count w ps
    → 0 < count d ps
    → 0 < count j ps
    → (d == w) ≡ false
    → find j (moved w d money m) ≡ some (gain (length ps) w d money j)
unfolding contains
moved-find ps w d money j m t z hw hd hj ne =
    let v = value_or (find w m) (pos 0) in
    let m' = assign w (v +ℤ pos money) m in
    let present : contains d m' ≡ true = contains-assign d w (v +ℤ pos money) m ∙ t.present d hd in
    let o = assign-IsOrdered 0 w (v +ℤ pos money) m t.ordered in
    let run : moved w d money m ≡ assign d (value_or (find d m') (pos 0) -ℤ pos money) m' =
      ap (sub_delta d (pos money)) (add_delta-present w (pos money) m t.ordered (t.present w hw))
      ∙ sub_delta-present d (pos money) m' o present in
    rw run (
      ground (
        arith,
        z j hj,
        z w hw,
        z d hd,
        find-assign w j (v +ℤ pos money) m,
        find-assign w d (v +ℤ pos money) m,
        find-assign d j (value_or (find d m') (pos 0) -ℤ pos money) m',
        zero_plus money,
        t.present w hw,
        present,
      ))

-- With one winner, at a table of distinct players that holds the winner and the player whose tile it
-- won by, each player's change is: by another's tile, the winner gets 100 for each kind of its win
-- from that player, and the others nothing; by its own draw, it gets that from each of the others.
pub single_win_lem :
    (ps : List ℕ) (w : ℕ) (i : HuInfo) (j : ℕ)
    → Distinct ps
    → IsWinOf ps w i
    → 0 < count j ps
    → find j (changes ps ((w, i) ∷ []))
      ≡ some (gain (length ps) w i.dropped_player (100 * length i.hu_list) j)
unfolding settle settle_one
single_win_lem ps w i j d h k =
    let m = zero_deltas ps [] in
    let t = zero_deltas-IsTable ps d in
    elim (Bool-cases (i.dropped_player == w)) [
      | inl e ↦ ground (
        arith,
        h.same,
        e,
        zero_at ps d j k,
        zero_plus ((length ps - 1) * money_of i),
        find-self_drawn-value j w (length ps) (money_of i) m,
      )
      | inr e ↦ ground (
        arith,
        h.same,
        e,
        moved-find ps w i.dropped_player (money_of i) j m t (zero_at ps d) h.winner_seated
            h.dropper_seated k,
      )
    ]
