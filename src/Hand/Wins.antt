-- ===== src/Hand/Wins.antt =====
-- What winning means, said without the search: one pair, and otherwise triplets and runs.
use mahjong_server.Common.{ℕ, ◌+◌, ◌%◌, ◌<◌, List, [], ◌∷◌, ◌++◌, All, SameTiles}

pub data Meld : Type 0 where
  triplet : ℕ → Meld
  shunzi : ℕ → Meld

abbrev pub tiles : Meld → List ℕ
tiles (triplet x) = x ∷ x ∷ x ∷ []
tiles (shunzi x) = x ∷ (x + 1) ∷ (x + 2) ∷ []

-- A run is three numbers in a row of one of the three numbered suits.
abbrev pub IsMeld : Meld → Type 0
IsMeld (triplet x) = Unit {0}
IsMeld (shunzi x) = (x < 27) × (x % 9 < 7)

abbrev pub tiles_of : List Meld → List ℕ
tiles_of [] = []
tiles_of (m ∷ ms) = tiles m ++ tiles_of ms

-- The tiles of `hand` are, in some order, a pair and melds.
abbrev pub Wins : List ℕ → Type 0
Wins hand =
    (eye : ℕ) × (melds : List Meld) × All IsMeld melds × SameTiles hand (eye ∷ eye ∷ tiles_of melds)
