-- ===== src/Tests/Hands.antt =====
-- Hands of the rules of Server/Game/Utility/ServerUtility.cpp and of Server/Game/Character.
use mahjong_server.Common.{
  ℕ, inr, ◌<◌, ◌≤◌, ◌≡◌, ◌≢◌, ◌↔◌, ◌⊎◌, refl, true, false, ◌==◌, leb, List, [], ◌∷◌, ◌++◌, none,
  some, All, count, length, arith,
}
use mahjong_server.Tile.{gang, peng, normal, qingyise, PengGangInfo, m_max, get_hua_se}
use mahjong_server.Hand.{can_hu, to_mahjong_group, all_count}
use mahjong_server.Hand.Wins.{Wins}
use mahjong_server.Hand.Group.{tally, IsGroup, to_mahjong_group_lem}
use mahjong_server.Hand.Decides.{can_hu-iff-Wins}
use mahjong_server.Hand.Meld.{
  can_peng, can_gang, can_gang_own, IsSorted, Leaves, claim_lem, can_gang_own_lem,
}
use mahjong_server.Hand.Kinds.{
  generate_hu_type, insert_drop, IsOfSuit, meld_tiles, generate_hu_type_lem, insert_drop_lem,
}
use mahjong_server.Player.{CharacterData, has_peng, player_gang, player_peng}
use mahjong_server.Player.Tiles.{
  GivesUp, player_peng_lem, player_gang_dropped, player_gang_own, player_gang_over,
}

-- Three of one kind, a run, and a pair.
abbrev winning : List ℕ
winning = 3 ∷ 3 ∷ 3 ∷ 9 ∷ 10 ∷ 11 ∷ 27 ∷ 27 ∷ []

can_hu-iff-Wins_example : (can_hu winning ≡ true) ↔ Wins winning
can_hu-iff-Wins_example = can_hu-iff-Wins winning (ground arith)

to_mahjong_group_example :
    ((x : ℕ) → tally x (to_mahjong_group winning) ≡ count x winning)
    × IsGroup 0 (to_mahjong_group winning)
    × (all_count (to_mahjong_group winning) ≡ length winning)
to_mahjong_group_example = to_mahjong_group_lem winning

claim_example :
    (can_peng winning 3 ≡ leb 2 (count 3 winning)) × (can_gang winning 3 ≡ (count 3 winning == 3))
claim_example = claim_lem winning 3

can_gang_own_example :
    ((can_gang_own winning ≡ m_max) × ((x : ℕ) → count x winning ≢ 4))
    ⊎ (count (can_gang_own winning) winning ≡ 4)
can_gang_own_example = can_gang_own_lem winning

abbrev one_peng : List PengGangInfo
one_peng = (record { type = peng; mahjong = 5 }) ∷ []

abbrev suited : List ℕ
suited = 1 ∷ 2 ∷ 3 ∷ 8 ∷ []

generate_hu_type_example :
    ((generate_hu_type suited 8 one_peng false false ≡ some (qingyise ∷ []))
      × IsOfSuit (get_hua_se 1) ((1 ∷ 2 ∷ 3 ∷ 8 ∷ 8 ∷ []) ++ meld_tiles one_peng))
    ⊎ ((generate_hu_type suited 8 one_peng false false ≡ some (normal ∷ []))
        × (¬ IsOfSuit (get_hua_se 1) ((1 ∷ 2 ∷ 3 ∷ 8 ∷ 8 ∷ []) ++ meld_tiles one_peng)))
unfolding insert_drop
generate_hu_type_example =
    generate_hu_type_lem suited 8 one_peng false false 1 (2 ∷ 3 ∷ 8 ∷ 8 ∷ []) (inr refl, tt) refl

insert_drop_example :
    ((y : ℕ) × (0 < count y suited)
      × (2 ≤ y)
      × Leaves 1 0 2 (insert_drop 2 suited) suited
      × IsSorted 0 (insert_drop 2 suited))
    ⊎ (All (λ x. x < 2) suited × (insert_drop 2 suited ≡ suited))
insert_drop_example = insert_drop_lem 0 2 suited (ground arith) (ground arith)

abbrev player : CharacterData
player = record {
  guid = 100;
  banker = false;
  position = some 0;
  room_id = none;
  ready = false;
  get_start_done = false;
  hand_in = winning;
  drop_list = [];
  peng_gang_list = one_peng;
  hua_list = [];
  is_player = true;
  has_client = true;
}

player_peng_example :
    GivesUp 2 27 player (player_peng 27 player)
    × IsSorted 0 (player_peng 27 player).hand_in
    × ((player_peng 27 player).peng_gang_list
        ≡ one_peng ++ (record { type = peng; mahjong = 27 }) ∷ [])
player_peng_example = player_peng_lem 27 player (ground arith) (ground arith)

player_gang_dropped_example :
    GivesUp 3 3 player (player_gang 3 false player)
    × ((player_gang 3 false player).peng_gang_list
        ≡ one_peng ++ (record { type = gang; mahjong = 3 }) ∷ [])
unfolding has_peng
player_gang_dropped_example = player_gang_dropped 3 player (ground arith) refl (ground arith)

abbrev four_and_drawn : CharacterData
four_and_drawn = record player { hand_in = 2 ∷ 2 ∷ 2 ∷ 5 ∷ 7 ∷ 2 ∷ [] }

player_gang_own_example :
    GivesUp 4 2 four_and_drawn (player_gang 2 true four_and_drawn)
    × ((player_gang 2 true four_and_drawn).peng_gang_list
        ≡ one_peng ++ (record { type = gang; mahjong = 2 }) ∷ [])
unfolding has_peng
player_gang_own_example =
    player_gang_own 2 2 (2 ∷ 2 ∷ 2 ∷ 5 ∷ 7 ∷ []) four_and_drawn refl (ground arith) refl refl

player_gang_over_example :
    GivesUp 1 5 four_and_drawn (player_gang 5 true four_and_drawn)
    × ((player_gang 5 true four_and_drawn).peng_gang_list
        ≡ (record { type = gang; mahjong = 5 }) ∷ [])
player_gang_over_example = player_gang_over 5 [] [] four_and_drawn refl tt (ground arith)
