-- ===== src/Room/Turn/Drop.antt =====
-- Room::requestDrop and Room::notifyPlayerDropped: after a drop the others are asked, or the next
-- player draws.
use mahjong_server.Common.{
  subst, ℕ, ◌+◌, ◌≡◌, ◌≢◌, ◌⊎◌, refl, sym, ◌∙◌, ap, Bool, true, false, List, [], ◌∷◌, ◌++◌, some,
  ◌==◌, if◌then◌else◌, get_elem?, erase_idx, count, arith, Bool-cases, inl, inr, ==-refl, ==-false,
}
use mahjong_server.Tile.{m_max}
use mahjong_server.Stl.TxMap.{find}
use mahjong_server.Hand.Meld.{IsSorted}
use mahjong_server.Player.{CharacterData, drop_mahjong, reorder_mahjong}
use mahjong_server.Player.Tiles.{count-sort, sort-IsSorted, count-erase_idx}
use mahjong_server.Room.State.{PlayState, normal_gaming, Room, modify, send, dropped, reorder}
use mahjong_server.Room.Notify.{notify_all_player_drop}
use mahjong_server.Room.Seats.{get_member_by_position, next_seat, seat_of}
use mahjong_server.Room.EndGame.{all_seated}
use mahjong_server.Room.Turn.{
  request_next, request_mahjong, is_normal_gaming, notify_player_dropped, player_drop, request_drop,
  replace_data,
}
use mahjong_server.Room.Turn.Ask.{Keeps}
use mahjong_server.Room.Turn.Draw.{HasDrawn, request_mahjong_lem}
use mahjong_server.Room.Turn.Others.{Somebody, Nobody, OthersHold, Asked, ask_others_lem}
use mahjong_server.Room.Turn.Choice.{IsRunning, next_seat-bound}

-- What happens after a drop. In another phase than the normal one, nothing. In it, if one of the
-- others may act on the tile, nothing moves; if none may, the player at the next seat draws.
abbrev pub Continues : ℕ → ℕ → Room → Room → Type 0
Continues player mah d s =
    ((d.play_state ≢ normal_gaming) × (s ≡ d))
    ⊎ ((d.play_state ≡ normal_gaming) × Somebody player mah d.players d.player_list × Keeps d s)
    ⊎ ((d.play_state ≡ normal_gaming)
        × Nobody player mah d.players d.player_list
        × (q : ℕ) × (t : Room) × Keeps d t
        × (get_member_by_position (next_seat (t.players player).position) t ≡ some q)
        × HasDrawn q t s)

IsRunning-Keeps : (ps : List ℕ) (r s : Room) → Keeps r s → IsRunning ps r → IsRunning ps s
unfolding get_member_by_position
IsRunning-Keeps ps r s k v = record {
  all_there = ap all_seated k.seats ∙ v.all_there;
  at_seat = λ n h. let (q, e) = v.at_seat n h in (q, ap (λ l. seat_of (find n l)) k.seats ∙ e);
  tiles_only = ap (count m_max) k.pool ∙ v.tiles_only;
}

request_next-Continues :
    (player mah : ℕ) (d t : Room) (b : Bool) (ps : List ℕ)
    → d.play_state ≡ normal_gaming
    → Asked player mah d d.player_list false b
    → Keeps d t
    → IsRunning ps d
    → (s : Room) × (request_next player (b, t) ≡ some s) × Continues player mah d s
request_next-Continues player mah d t true ps e (inl (f, inl g)) k v = absurd (cc)
request_next-Continues player mah d t true ps e (inl (f, inr some_acts)) k v =
    (t, refl, inr (inl (e, some_acts, k)))
request_next-Continues player mah d t true ps e (inr (f, g, h)) k v = absurd (cc)
request_next-Continues player mah d t false ps e (inl (f, g)) k v = absurd (cc)
request_next-Continues player mah d t false ps e (inr (f, g, none_acts)) k v =
    let w = IsRunning-Keeps ps d t k v in
    let (q, at) =
      w.at_seat (next_seat (t.players player).position)
        (next_seat-bound (t.players player).position) in
    let (s, run, h) = request_mahjong_lem q t ps w.tiles_only w.all_there in
    (s, ap (λ o. request_mahjong o t) at ∙ run, inr (inr (e, none_acts, q, t, k, at, h)))

is_normal_gaming-true : (p : PlayState) → is_normal_gaming p ≡ true → p ≡ normal_gaming
is_normal_gaming-true p h = ground arith

is_normal_gaming-false : (p : PlayState) → is_normal_gaming p ≡ false → p ≢ normal_gaming
is_normal_gaming-false p h e = ground arith

notify_player_dropped-Continues :
    (player mah : ℕ) (d : Room) (ps : List ℕ)
    → IsRunning ps d
    → OthersHold player d d.player_list
    → (s : Room) × (notify_player_dropped player mah d ≡ some s) × Continues player mah d s
unfolding notify_player_dropped
notify_player_dropped-Continues player mah d ps v h =
    elim (Bool-cases (is_normal_gaming d.play_state)) [
      | inl e ↦
          let (b, t, run, k, asked) = ask_others_lem player mah d.player_list false d h in
          let (s, done, c) =
            request_next-Continues player mah d t b ps (is_normal_gaming-true d.play_state e) asked
              k v in
          (s, rw (e, notify_player_dropped) (rw run done), c)
      | inr e ↦
          (d, rw (e, notify_player_dropped) refl, inl (is_normal_gaming-false d.play_state e, refl))
    ]

-- The room after the tile has left the hand for the end of the dropped tiles, the hand is sorted and
-- the others have been told. The player's melds and flowers and the phase are as before.
pub record HasDropped (player mah : ℕ) (r d : Room) : Type 0 where
  pub hand :
      (x : ℕ)
      → (if mah == x then 1 else 0) + count x (d.players player).hand_in
        ≡ count x (r.players player).hand_in
  pub sorted : IsSorted 0 (d.players player).hand_in
  pub put : (d.players player).drop_list ≡ (r.players player).drop_list ++ mah ∷ []
  pub melds : (d.players player).peng_gang_list ≡ (r.players player).peng_gang_list
  pub flowers : (d.players player).hua_list ≡ (r.players player).hua_list
  pub state : d.play_state ≡ r.play_state
  pub others : (q : ℕ) → q ≢ player → d.players q ≡ r.players q
  pub pool : d.mahjong_pool ≡ r.mahjong_pool
  pub seats : d.position_list ≡ r.position_list
  pub list : d.player_list ≡ r.player_list

abbrev after_drop : ℕ → ℕ → ℕ → CharacterData → Room → Room
after_drop player index mah c r = notify_all_player_drop player index mah (
    send player reorder
      (modify player reorder_mahjong (send player (dropped index mah) (replace_data player c r))))

player_drop-HasDropped :
    (player index mah : ℕ) (r : Room)
    → get_elem? (r.players player).hand_in index ≡ some mah
    → (d : Room) × (player_drop player index mah r ≡ some d) × HasDropped player mah r d
unfolding player_drop notify_all_player_drop drop_mahjong reorder_mahjong
player_drop-HasDropped player index mah r h =
    let c = record (r.players player) {
      drop_list = (r.players player).drop_list ++ mah ∷ [];
      hand_in = erase_idx (r.players player).hand_in index;
    } in
    let e : drop_mahjong index (r.players player) ≡ some c = rw (h, drop_mahjong) refl in
    let now : (after_drop player index mah c r).players player ≡ reorder_mahjong c =
      rw (==-refl player) refl in
    (
      after_drop player index mah c r,
      rw (e, player_drop) refl,
      record {
        hand = λ x.
            ap (λ l. (if mah == x then 1 else 0) + count x l) (ap (λ p. p.hand_in) now)
            ∙ ap (λ n. (if mah == x then 1 else 0) + n) (count-sort x c.hand_in)
            ∙ count-erase_idx x index mah (r.players player).hand_in h;
        sorted = subst (λ p. IsSorted 0 p.hand_in) (sym now) (sort-IsSorted c.hand_in);
        put = ap (λ p. p.drop_list) now;
        melds = ap (λ p. p.peng_gang_list) now;
        flowers = ap (λ p. p.hua_list) now;
        state = refl;
        others = λ q ne. rw (==-false q player ne) refl;
        pool = refl;
        seats = refl;
        list = refl;
      },
    )

IsRunning-HasDropped :
    (ps : List ℕ) (player mah : ℕ) (r d : Room)
    → HasDropped player mah r d
    → IsRunning ps r
    → IsRunning ps d
unfolding get_member_by_position
IsRunning-HasDropped ps player mah r d k v = record {
  all_there = ap all_seated k.seats ∙ v.all_there;
  at_seat = λ n h. let (q, e) = v.at_seat n h in (q, ap (λ l. seat_of (find n l)) k.seats ∙ e);
  tiles_only = ap (count m_max) k.pool ∙ v.tiles_only;
}

OthersHold-HasDropped :
    (player mah : ℕ) (r d : Room) (l : List (ℕ × ℕ))
    → HasDropped player mah r d
    → OthersHold player r l
    → OthersHold player d l
OthersHold-HasDropped player mah r d [] k h = tt
OthersHold-HasDropped player mah r d ((g, q) ∷ l) k h = (
  λ ne e. h.0 ne (ap (λ c. c.hand_in) (sym (k.others q ne)) ∙ e),
  OthersHold-HasDropped player mah r d l k h.1,
)

-- In a game that can go on, where every other player on the list holds a tile, a drop of a tile inside
-- the hand never fails. First exactly that tile has gone from the hand, which is sorted, to the end of
-- the dropped tiles, and no other player's data has changed. From there, in the normal phase: if one
-- of the others may win with the tile or holds two of it, nothing more moves; if none, the player at
-- the next seat has drawn. In another phase nothing more happens.
pub request_drop_lem :
    (player index mah : ℕ) (r : Room) (ps : List ℕ)
    → get_elem? (r.players player).hand_in index ≡ some mah
    → IsRunning ps r
    → OthersHold player r r.player_list
    → (s : Room) × (d : Room) × (request_drop player index r ≡ some s)
      × HasDropped player mah r d
      × Continues player mah d s
unfolding request_drop
request_drop_lem player index mah r ps h v o =
    let (d, run, k) = player_drop-HasDropped player index mah r h in
    let w = OthersHold-HasDropped player mah r d r.player_list k o in
    let (s, done, c) =
      notify_player_dropped-Continues player mah d ps (IsRunning-HasDropped ps player mah r d k v)
        (subst (OthersHold player d) (sym k.list) w) in
    (s, d, rw (h, request_drop) (rw run done), k, c)
