-- ===== src/Room/Turn/Draw.antt =====
-- Room::requestMahjong: the draw of a player ends, and where the tiles of the pool go.
use mahjong_server.Common.{
  ℕ, zero, suc, ◌+◌, ◌<◌, ◌≡◌, ◌≢◌, ◌⊎◌, refl, ◌∙◌, ap, true, false, List, [], ◌∷◌, ◌++◌, some,
  ◌==◌, if◌then◌else◌, length, length-append, count, count-append, arith, Bool-cases, inl, inr,
  ==-refl, ==-false,
}
use mahjong_server.Tile.{m_max, is_hua}
use mahjong_server.Player.{CharacterData, get_hua, get_mahjong}
use mahjong_server.Pool.{request_get}
use mahjong_server.Pool.Draw.{request_get_lem}
use mahjong_server.Room.State.{Room, ending, modify}
use mahjong_server.Room.Notify.{
  player_get_hua, player_get_mahjong, notify_all_player_get_hua, notify_all_player_get_mahjong,
  notify_all_player_mahjong_pool_size,
}
use mahjong_server.Room.EndGame.{all_seated, end_game}
use mahjong_server.Room.EndGame.Close.{drawn_game}
use mahjong_server.Room.Turn.Ask.{notify_player_get-Keeps}
use mahjong_server.Room.Turn.{notify_player_get, request_loop, request_mahjong}

-- All tiles of a kind in the pool and with a player.
abbrev pub tiles_with : ℕ → ℕ → Room → ℕ
tiles_with x p r =
    count x r.mahjong_pool + count x (r.players p).hand_in + count x (r.players p).hua_list

-- A player has drawn. Either a tile came to its hand, or the pool ran out and the game is over. No
-- tile of the pool is lost or made up, and no other player's data
-- but the banker mark is touched.
pub record HasDrawn (p : ℕ) (r s : Room) : Type 0 where
  pub kept : (x : ℕ) → tiles_with x p s ≡ tiles_with x p r
  pub got :
      (length (s.players p).hand_in ≡ length (r.players p).hand_in + 1)
      ⊎ ((s.play_state ≡ ending)
          × (s.mahjong_pool ≡ [])
          × ((s.players p).hand_in ≡ (r.players p).hand_in))
  pub others : (q : ℕ) → q ≢ p → s.players q ≡ r.players q
  pub seats : s.position_list ≡ r.position_list

modify-same :
    (p : ℕ) (f : CharacterData → CharacterData) (r : Room)
    → (modify p f r).players p ≡ f (r.players p)
modify-same p f r = rw (==-refl p) refl

modify-other :
    (p q : ℕ) (f : CharacterData → CharacterData) (r : Room)
    → q ≢ p
    → (modify p f r).players q ≡ r.players q
modify-other p q f r h = rw (==-false q p h) refl

-- The room after a tile has left the pool.
abbrev drawn : Room → Room
drawn r = record r { mahjong_pool = (request_get r.mahjong_pool).1 }

abbrev top : Room → ℕ
top r = (request_get r.mahjong_pool).0

hua_room :
    (p : ℕ) (r : Room)
    → ((player_get_hua p (top r) (drawn r)).players ≡ (modify p (get_hua (top r)) r).players)
      × ((player_get_hua p (top r) (drawn r)).mahjong_pool ≡ (drawn r).mahjong_pool)
      × ((player_get_hua p (top r) (drawn r)).position_list ≡ r.position_list)
unfolding player_get_hua notify_all_player_get_hua
hua_room p r = (refl, refl, refl)

plain_room :
    (p : ℕ) (r : Room)
    → ((player_get_mahjong p (top r) (drawn r)).players
        ≡ (modify p (get_mahjong (top r)) r).players)
      × ((player_get_mahjong p (top r) (drawn r)).mahjong_pool ≡ (drawn r).mahjong_pool)
      × ((player_get_mahjong p (top r) (drawn r)).position_list ≡ r.position_list)
unfolding player_get_mahjong notify_all_player_get_mahjong
plain_room p r = (refl, refl, refl)

loop_end :
    (fuel p : ℕ) (r : Room)
    → (top r == m_max) ≡ true
    → request_loop (suc fuel) (some p) r ≡ end_game [] (drawn r)
unfolding request_loop
loop_end fuel p r e = rw (e, request_loop) refl

loop_flower :
    (fuel p : ℕ) (r : Room)
    → (top r == m_max) ≡ false
    → is_hua (top r) ≡ true
    → request_loop (suc fuel) (some p) r
      ≡ request_loop fuel (some p) (player_get_hua p (top r) (drawn r))
unfolding request_loop
loop_flower fuel p r e f = rw (e, request_loop) (rw (f, request_loop) refl)

loop_plain :
    (fuel p : ℕ) (r : Room)
    → (top r == m_max) ≡ false
    → is_hua (top r) ≡ false
    → request_loop (suc fuel) (some p) r
      ≡ notify_player_get p (top r) (player_get_mahjong p (top r) (drawn r))
unfolding request_loop
loop_plain fuel p r e f = rw (e, request_loop) (rw (f, request_loop) refl)

-- Whether the drawn tile is M_MAX says whether the pool is empty.
top-m_max :
    (r : Room) → count m_max r.mahjong_pool ≡ 0 → (top r == m_max) ≡ (length r.mahjong_pool == 0)
top-m_max r h = elim (Bool-cases (length r.mahjong_pool == 0)) [
  | inl e ↦ ground (arith, (request_get_lem r.mahjong_pool).1)
  | inr e ↦
      let d = (request_get_lem r.mahjong_pool).0 (ground arith) in ground (arith, d.counts m_max)
]

ended :
    (p : ℕ) (r : Room) (ps : List ℕ)
    → length r.mahjong_pool ≡ 0
    → all_seated r.position_list ≡ some ps
    → (s : Room) × (end_game [] (drawn r) ≡ some s) × HasDrawn p r s
ended p r ps h a =
    let (s, e, phase, players, pool, seats) = drawn_game (drawn r) ps a in
    let f = ap (λ x. x.1) ((request_get_lem r.mahjong_pool).1 h) in
    (
      s,
      e,
      record {
        kept = λ x. rw (pool, players, f) refl;
        got = inr (phase, pool ∙ f ∙ empty r.mahjong_pool h, ap (λ x. (x p).hand_in) players);
        others = λ q ne. ap (λ x. x q) players;
        seats = seats;
      },
    )
  where
    empty : (l : List ℕ) → length l ≡ 0 → l ≡ []
    empty [] e = refl
    empty (x ∷ l) e = absurd (omega arith)

get_mahjong-tiles :
    (x p mah : ℕ) (c : CharacterData)
    → count x (get_mahjong mah c).hand_in + count x (get_mahjong mah c).hua_list
      ≡ (if mah == x then 1 else 0) + count x c.hand_in + count x c.hua_list
unfolding get_mahjong
get_mahjong-tiles x p mah c = omega (arith, count-append x c.hand_in (mah ∷ []))

get_hua-tiles :
    (x p mah : ℕ) (c : CharacterData)
    → count x (get_hua mah c).hand_in + count x (get_hua mah c).hua_list
      ≡ (if mah == x then 1 else 0) + count x c.hand_in + count x c.hua_list
unfolding get_hua
get_hua-tiles x p mah c = omega (arith, count-append x c.hua_list (mah ∷ []))

append-nonempty : (l : List ℕ) (x : ℕ) → l ++ x ∷ [] ≢ []
append-nonempty [] x e = ground arith
append-nonempty (y ∷ l) x e = ground arith

plain_drawn :
    (p : ℕ) (r : Room)
    → 0 < length r.mahjong_pool
    → (s : Room) × (notify_player_get p (top r) (player_get_mahjong p (top r) (drawn r)) ≡ some s)
      × HasDrawn p r s
unfolding get_mahjong
plain_drawn p r h =
    let d = (request_get_lem r.mahjong_pool).0 h in
    let t = player_get_mahjong p (top r) (drawn r) in
    let (players, pool, seats) = plain_room p r in
    let mine : t.players p ≡ get_mahjong (top r) (r.players p) =
      ap (λ f. f p) players ∙ modify-same p (get_mahjong (top r)) r in
    let (s, e, v) =
      notify_player_get-Keeps p (top r) t
        (rw mine (append-nonempty (r.players p).hand_in (top r))) in
    (
      s,
      e,
      record {
        kept = λ x.
            rw (v.pool, v.players, mine, pool)
              (omega (arith, d.counts x, get_mahjong-tiles x p (top r) (r.players p)));
        got = inl (rw (v.players, mine) (length-append (r.players p).hand_in (top r ∷ [])));
        others = λ q ne.
            ap (λ f. f q) (v.players ∙ players) ∙ modify-other p q (get_mahjong (top r)) r ne;
        seats = v.seats ∙ seats;
      },
    )

-- After a flower the draw goes on from a room with the same tiles.
flower_drawn :
    (p : ℕ) (r s : Room)
    → 0 < length r.mahjong_pool
    → HasDrawn p (player_get_hua p (top r) (drawn r)) s
    → HasDrawn p r s
unfolding get_hua
flower_drawn p r s h v =
    let d = (request_get_lem r.mahjong_pool).0 h in
    let (players, pool, seats) = hua_room p r in
    let t = player_get_hua p (top r) (drawn r) in
    let mine : t.players p ≡ get_hua (top r) (r.players p) =
      ap (λ f. f p) players ∙ modify-same p (get_hua (top r)) r in
    let same : (t.players p).hand_in ≡ (r.players p).hand_in = ap (λ c. c.hand_in) mine in
    record {
      kept = λ x.
          v.kept x
          ∙ rw (mine, pool) (omega (arith, d.counts x, get_hua-tiles x p (top r) (r.players p)));
      got = elim v.got [
        | inl e ↦ inl (e ∙ ap (λ l. length l + 1) same)
        | inr (a, b, c) ↦ inr (a, b, c ∙ same)
      ];
      others =
          λ q ne. v.others q ne ∙ ap (λ f. f q) players ∙ modify-other p q (get_hua (top r)) r ne;
      seats = v.seats ∙ seats;
    }

request_loop_lem :
    (fuel p : ℕ) (r : Room) (ps : List ℕ)
    → length r.mahjong_pool < fuel
    → count m_max r.mahjong_pool ≡ 0
    → all_seated r.position_list ≡ some ps
    → (s : Room) × (request_loop fuel (some p) r ≡ some s) × HasDrawn p r s
request_loop_lem zero p r ps h k a = absurd (omega arith)
request_loop_lem (suc fuel) p r ps h k a = elim (Bool-cases (length r.mahjong_pool == 0)) [
  | inl e ↦
      let (s, f, v) = ended p r ps (ground arith) a in
      (s, loop_end fuel p r (top-m_max r k ∙ e) ∙ f, v)
  | inr e ↦ elim (Bool-cases (is_hua (top r))) [
    | inl f ↦
        let (players, pool, seats) = hua_room p r in
        let d = (request_get_lem r.mahjong_pool).0 (ground arith) in
        let t = player_get_hua p (top r) (drawn r) in
        let (s, run, v) =
          request_loop_lem fuel p t ps (rw pool (omega (arith, d.one_less)))
            (rw pool (omega (arith, d.counts m_max))) (ap all_seated seats ∙ a) in
        (s, loop_flower fuel p r (top-m_max r k ∙ e) f ∙ run, flower_drawn p r s (ground arith) v)
    | inr f ↦
        let (s, run, v) = plain_drawn p r (ground arith) in
        (s, loop_plain fuel p r (top-m_max r k ∙ e) f ∙ run, v)
  ]
]

-- With a player at each seat and no M_MAX among the tiles of the pool, a draw always comes to its end:
-- either the hand gains exactly one tile, or the pool is empty and the game is over with the hand as
-- it was. No tile is lost or made up among the pool, the hand and the flowers of the player, and the
-- other players' data stays as it was.
pub request_mahjong_lem :
    (p : ℕ) (r : Room) (ps : List ℕ)
    → count m_max r.mahjong_pool ≡ 0
    → all_seated r.position_list ≡ some ps
    → (s : Room) × (request_mahjong (some p) r ≡ some s) × HasDrawn p r s
unfolding request_mahjong notify_all_player_mahjong_pool_size
request_mahjong_lem p r ps k a =
    let (s, run, v) = request_loop_lem (length r.mahjong_pool + 1) p r ps (omega arith) k a in
    (
      notify_all_player_mahjong_pool_size (length s.mahjong_pool) s,
      rw (run, request_mahjong) refl,
      record { kept = v.kept; got = v.got; others = v.others; seats = v.seats },
    )
