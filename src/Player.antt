-- ===== src/Player.antt =====
-- Server/Game/Character/CharacterPlayer.cpp and CharacterData.h: a player's tiles. A player is the
-- record of its data. -1 and INVALID_INT_ID are `none`.
pub mod Tiles
use mahjong_server.Common.{
  ℕ, zero, suc, Bool, true, false, ◌&&◌, List, [], ◌∷◌, ◌++◌, Option, none, some, ◌==◌, leb,
  if◌then◌else◌, get_elem?, erase_idx,
}
use mahjong_server.Tile.{ActionType, gang, peng, PengGangInfo}
use mahjong_server.Hand.Meld.{gang_mahjong, peng_mahjong}
use mahjong_server.Hand.Kinds.{is_peng}

pub record CharacterData : Type 0 where
  pub guid : ℕ
  pub banker : Bool
  pub position : Option ℕ
  pub room_id : Option ℕ
  pub ready : Bool
  pub get_start_done : Bool
  pub hand_in : List ℕ
  pub drop_list : List ℕ
  pub peng_gang_list : List PengGangInfo
  pub hua_list : List ℕ
  -- getType() is CT_PLAYER, and getClientGUID() is not INVALID_ID.
  pub is_player : Bool
  pub has_client : Bool

pub insert_sorted : ℕ → List ℕ → List ℕ
insert_sorted x [] = x ∷ []
insert_sorted x (y ∷ ys) = if leb x y then x ∷ y ∷ ys else y ∷ insert_sorted x ys

-- std::sort over tiles: equal tiles cannot be told apart.
pub sort : List ℕ → List ℕ
sort [] = []
sort (x ∷ xs) = insert_sorted x (sort xs)

unfoldable pub reorder_mahjong : CharacterData → CharacterData
unfolding sort insert_sorted
reorder_mahjong c = record c { hand_in = sort c.hand_in }

unfoldable pub get_mahjong : ℕ → CharacterData → CharacterData
get_mahjong mah c = record c { hand_in = c.hand_in ++ mah ∷ [] }

-- `none` is an index out of range.
unfoldable pub drop_mahjong : ℕ → CharacterData → Option CharacterData
drop_mahjong index c = elim (get_elem? c.hand_in index) [
  | none ↦ none
  | some mah ↦
      some (record c { drop_list = c.drop_list ++ mah ∷ []; hand_in = erase_idx c.hand_in index })
]

unfoldable pub get_hua : ℕ → CharacterData → CharacterData
get_hua hua c = record c { hua_list = c.hua_list ++ hua ∷ [] }

abbrev pub is_peng_of : ℕ → PengGangInfo → Bool
is_peng_of mah i = i.mahjong == mah && is_peng i.type

-- hasPeng: the index of the first peng of a tile, counted on from `i`.
pub peng_index_from : ℕ → ℕ → List PengGangInfo → Option ℕ
peng_index_from i mah [] = none
peng_index_from i mah (info ∷ infos) =
    if is_peng_of mah info then some i else peng_index_from (suc i) mah infos

unfoldable pub has_peng : ℕ → List PengGangInfo → Option ℕ
unfolding peng_index_from
has_peng mah infos = peng_index_from 0 mah infos

-- `mPengGangList[pengIndex]->mType = AT_GANG`
pub make_gang : ℕ → List PengGangInfo → List PengGangInfo
make_gang i [] = []
make_gang zero (info ∷ infos) = record info { type = gang } ∷ infos
make_gang (suc i) (info ∷ infos) = info ∷ make_gang i infos

unfoldable pub add_peng : ℕ → CharacterData → CharacterData
add_peng mah c = record c {
  peng_gang_list = c.peng_gang_list ++ (record { type = peng; mahjong = mah }) ∷ [];
}

unfoldable pub add_gang : ℕ → CharacterData → CharacterData
add_gang mah c = record c {
  peng_gang_list = c.peng_gang_list ++ (record { type = gang; mahjong = mah }) ∷ [];
}

-- The loop that takes the first tile of a kind out of the hand.
pub erase_first : ℕ → List ℕ → List ℕ
erase_first mah [] = []
erase_first mah (x ∷ xs) = if x == mah then xs else x ∷ erase_first mah xs

-- The two cases of CharacterPlayer::gangMahjong: over the peng at an index, or from the hand.
abbrev pub gang_over : Option ℕ → ℕ → CharacterData → CharacterData
gang_over (some i) mah c = record c { peng_gang_list = make_gang i c.peng_gang_list }
gang_over none mah c = add_gang mah (record c { hand_in = gang_mahjong c.hand_in mah })

-- A tile that the player drew itself is taken out of the hand.
abbrev pub take_own : ℕ → Bool → CharacterData → CharacterData
take_own mah own d = if own then record d { hand_in = erase_first mah d.hand_in } else d

-- CharacterPlayer::gangMahjong, `own` being whether the tile was dropped by the player itself.
unfoldable pub player_gang : ℕ → Bool → CharacterData → CharacterData
unfolding has_peng make_gang add_gang gang_mahjong erase_first
player_gang mah own c = take_own mah own (gang_over (has_peng mah c.peng_gang_list) mah c)

unfoldable pub player_peng : ℕ → CharacterData → CharacterData
unfolding add_peng peng_mahjong
player_peng mah c = add_peng mah (record c { hand_in = peng_mahjong c.hand_in mah })

unfoldable pub clear_mahjong : CharacterData → CharacterData
clear_mahjong c = record c {
  hand_in = [];
  hua_list = [];
  drop_list = [];
  ready = false;
  get_start_done = false;
  peng_gang_list = [];
}
