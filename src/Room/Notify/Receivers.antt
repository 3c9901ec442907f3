-- ===== src/Room/Notify/Receivers.antt =====
-- Who hears of what: the receivers of the messages of Server/Game/Room/Room.cpp.
use mahjong_server.Common.{
  ℕ, suc, true, ◌+◌, ◌≡◌, ◌≢◌, refl, ap, sym, ◌∙◌, List, [], ◌∷◌, ◌++◌, Option, none, some, map,
  ◌==◌, if◌then◌else◌, replicate, Bool-cases, inl, inr, arith,
}
use mahjong_server.Room.State.{
  Room, Command, other_drop, other_get_tile, other_gang, other_peng, other_pass, other_ask_drop,
  other_get_hua, other_ask_action, other_reorder, all_get_start_done, pool_size,
}
use mahjong_server.Room.Notify.{
  seated, but, notify_all_player_drop, notify_all_player_get_mahjong, notify_all_player_gang,
  notify_all_player_peng, notify_all_player_pass, notify_all_player_ask_drop,
  notify_all_player_get_hua, notify_all_player_ask_action, notify_all_player_reorder_mahjong,
  notify_all_player_get_start_done, notify_all_player_mahjong_pool_size,
}

one_plus : (n : ℕ) → 1 + n ≡ suc n
one_plus n = omega arith

none_plus : (n : ℕ) → 0 + n ≡ n
none_plus n = omega arith

-- What a player has heard, in the order of sending.
abbrev pub heard : ℕ → List (ℕ × Command) → List Command
heard q [] = []
heard q ((p, c) ∷ l) = if p == q then c ∷ heard q l else heard q l

-- The number of seats at which a player sits.
abbrev pub seats_of : ℕ → List (ℕ × Option ℕ) → ℕ
seats_of q [] = 0
seats_of q ((k, none) ∷ seats) = seats_of q seats
seats_of q ((k, some p) ∷ seats) = (if p == q then 1 else 0) + seats_of q seats

-- The same, but none for the acting player itself.
abbrev pub other_seats_of : ℕ → ℕ → Room → ℕ
other_seats_of q player r = if q == player then 0 else seats_of q r.position_list

==-true : (a b : ℕ) → (a == b) ≡ true → a ≡ b
==-true a b e = ground arith

heard-append : (q : ℕ) (l m : List (ℕ × Command)) → heard q (l ++ m) ≡ heard q l ++ heard q m
heard-append q [] m = refl
heard-append q ((p, c) ∷ l) m = ground (arith, heard-append q l m)

heard-seated :
    (q : ℕ) (c : Command) (seats : List (ℕ × Option ℕ))
    → heard q (map (λ p. (p, c)) (seated seats)) ≡ replicate (seats_of q seats) c
unfolding seated
heard-seated q c [] = refl
heard-seated q c ((k, none) ∷ seats) = heard-seated q c seats
heard-seated q c ((k, some p) ∷ seats) = elim (Bool-cases (p == q)) [
  | inl e ↦ rw (e, one_plus (seats_of q seats)) (ap (λ l. c ∷ l) (heard-seated q c seats))
  | inr e ↦ rw (e, none_plus (seats_of q seats)) (heard-seated q c seats)
]

heard-but_self : (q : ℕ) (c : Command) (ps : List ℕ) → heard q (map (λ p. (p, c)) (but q ps)) ≡ []
unfolding but
heard-but_self q c [] = refl
heard-but_self q c (p ∷ ps) = ground (arith, heard-but_self q c ps)

heard-but :
    (q player : ℕ) (c : Command) (ps : List ℕ)
    → q ≢ player
    → heard q (map (λ p. (p, c)) (but player ps)) ≡ heard q (map (λ p. (p, c)) ps)
unfolding but
heard-but q player c [] ne = refl
heard-but q player c (p ∷ ps) ne = ground (arith, heard-but q player c ps)

heard-all :
    (q : ℕ) (c : Command) (r : Room)
    → heard q (r.sent ++ map (λ p. (p, c)) (seated r.position_list))
      ≡ heard q r.sent ++ replicate (seats_of q r.position_list) c
heard-all q c r =
    heard-append q r.sent (map (λ p. (p, c)) (seated r.position_list))
    ∙ ap (λ l. heard q r.sent ++ l) (heard-seated q c r.position_list)

heard-others :
    (q player : ℕ) (c : Command) (r : Room)
    → heard q (r.sent ++ map (λ p. (p, c)) (but player (seated r.position_list)))
      ≡ heard q r.sent ++ replicate (other_seats_of q player r) c
heard-others q player c r =
    let ps = seated r.position_list in
    heard-append q r.sent (map (λ p. (p, c)) (but player ps))
    ∙ ap (λ l. heard q r.sent ++ l)
        (elim (Bool-cases (q == player)) [
          | inl e ↦ rw e (
              ap (λ k. heard q (map (λ p. (p, c)) (but k ps))) (sym (==-true q player e))
              ∙ heard-but_self q c ps)
          | inr e ↦ rw e (heard-but q player c ps (ground arith) ∙ heard-seated q c r.position_list)
        ])

-- What a player does with its tiles (drawing, a flower, a drop, a gang, a peng, a pass, sorting, being
-- asked) is told once to each seat of every other player, and not to the player itself: behind what
-- they heard before comes the message of that very move, with its player and tile. The size of the
-- pool and the end of the start are told once to each seat. Nobody hears anything else.
pub notify_lem :
    (q player dropped_player index mah : ℕ) (r : Room)
    → (heard q (notify_all_player_drop player index mah r).sent
        ≡ heard q r.sent
          ++ replicate (other_seats_of q player r) (other_drop (r.players player).guid index mah))
      × (heard q (notify_all_player_get_mahjong player mah r).sent
          ≡ heard q r.sent
            ++ replicate (other_seats_of q player r) (other_get_tile (r.players player).guid mah))
      × (heard q (notify_all_player_gang player dropped_player mah r).sent
          ≡ heard q r.sent
            ++ replicate (other_seats_of q player r) (other_gang player dropped_player mah))
      × (heard q (notify_all_player_peng player dropped_player mah r).sent
          ≡ heard q r.sent
            ++ replicate (other_seats_of q player r) (other_peng player dropped_player mah))
      × (heard q (notify_all_player_pass player dropped_player mah r).sent
          ≡ heard q r.sent
            ++ replicate (other_seats_of q player r) (other_pass player dropped_player mah))
      × (heard q (notify_all_player_ask_drop player r).sent
          ≡ heard q r.sent ++ replicate (other_seats_of q player r) (other_ask_drop player))
      × (heard q (notify_all_player_get_hua player mah r).sent
          ≡ heard q r.sent ++ replicate (other_seats_of q player r) (other_get_hua player mah))
      × (heard q (notify_all_player_ask_action player r).sent
          ≡ heard q r.sent ++ replicate (other_seats_of q player r) (other_ask_action player))
      × (heard q (notify_all_player_reorder_mahjong player r).sent
          ≡ heard q r.sent
            ++ replicate (other_seats_of q player r) (other_reorder (r.players player).guid))
      × (heard q (notify_all_player_get_start_done r).sent
          ≡ heard q r.sent ++ replicate (seats_of q r.position_list) all_get_start_done)
      × (heard q (notify_all_player_mahjong_pool_size index r).sent
          ≡ heard q r.sent ++ replicate (seats_of q r.position_list) (pool_size index))
unfolding notify_all_player_drop notify_all_player_get_mahjong notify_all_player_gang
    notify_all_player_peng notify_all_player_pass notify_all_player_ask_drop
    notify_all_player_get_hua notify_all_player_ask_action notify_all_player_reorder_mahjong
    notify_all_player_get_start_done notify_all_player_mahjong_pool_size
notify_lem q player dropped_player index mah r =
    let others = λ (c : Command). heard-others q player c r in
    (
      others _,
      others _,
      others _,
      others _,
      others _,
      others _,
      others _,
      others _,
      others _,
      heard-all q _ r,
      heard-all q _ r,
    )
