-- ===== src/Tile.antt =====
-- Server/Game/Common/GameDefine.h: the tiles, suits and limits of the game. A MAHJONG is the number
-- that its enumerator stands for, since the code adds to tiles, divides them and casts numbers to
-- them; so is a MAHJONG_HUASE. The other enumerations are data types.
use mahjong_server.Common.{ℕ, ◌+◌, ◌-◌, ◌/◌, Bool, ◌&&◌, leb, if◌then◌else◌}

abbrev pub m_tong1 : ℕ
m_tong1 = 0

abbrev pub m_feng_dong : ℕ
m_feng_dong = 27

abbrev pub m_feng_bai : ℕ
m_feng_bai = 33

abbrev pub m_hua_chun : ℕ
m_hua_chun = 34

abbrev pub m_hua_ju : ℕ
m_hua_ju = 41

abbrev pub m_max : ℕ
m_max = 42

abbrev pub mh_feng : ℕ
mh_feng = 0

abbrev pub mh_tong : ℕ
mh_tong = 1

abbrev pub max_player : ℕ
max_player = 4

abbrev pub max_single_count : ℕ
max_single_count = 4

abbrev pub max_hand_in_count : ℕ
max_hand_in_count = 14

abbrev pub max_hua_count : ℕ
max_hua_count = m_hua_ju - m_hua_chun + 1

abbrev pub max_feng_count : ℕ
max_feng_count = m_feng_bai - m_feng_dong + 1

abbrev pub max_mahjong_count : ℕ
max_mahjong_count = m_max - max_hua_count - max_feng_count

-- ServerUtility::isHua
abbrev pub is_hua : ℕ → Bool
is_hua mah = leb m_hua_chun mah && leb mah m_hua_ju

-- ServerUtility::getHuaSe
abbrev pub get_hua_se : ℕ → ℕ
get_hua_se mah =
    if leb m_feng_dong mah && leb mah m_feng_bai then mh_feng else mh_tong + (mah - m_tong1) / 9

-- ACTION_TYPE, in its order: an earlier action goes before a later one.
pub data ActionType : Type 0 where
  hu gang peng pass max : ActionType

abbrev pub rank : ActionType → ℕ
rank hu = 0
rank gang = 1
rank peng = 2
rank pass = 3
rank max = 4

-- HU_TYPE
pub data HuType : Type 0 where
  normal qingyise quese hua ming_gang angang menqing duiduihu anqidui longqidui gangshanghua :
      HuType
  gangshangpao haidihua haidipao tianhu max : HuType

-- ServerUtility::getHuMultiple, after ServerUtility::init has filled its map.
abbrev pub get_hu_multiple : HuType → ℕ
get_hu_multiple normal = 1
get_hu_multiple qingyise = 4
get_hu_multiple quese = 1
get_hu_multiple hua = 1
get_hu_multiple ming_gang = 1
get_hu_multiple angang = 2
get_hu_multiple menqing = 1
get_hu_multiple duiduihu = 1
get_hu_multiple anqidui = 4
get_hu_multiple longqidui = 8
get_hu_multiple gangshanghua = 4
get_hu_multiple gangshangpao = 4
get_hu_multiple haidihua = 4
get_hu_multiple haidipao = 4
get_hu_multiple tianhu = 4
get_hu_multiple HuType.max = 0

pub record PengGangInfo : Type 0 where
  pub type : ActionType
  pub mahjong : ℕ
