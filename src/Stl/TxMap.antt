-- ===== src/Stl/TxMap.antt =====
-- Server/Frame/STL/txMap.h: a map over numbers, as the list of its pairs in the order of the keys.
-- The keys are ids, seats or addresses. Locking writes a log line and changes nothing else.
pub mod Laws
use mahjong_server.Common.{
  ℕ, suc, Bool, true, false, List, [], ◌∷◌, Option, none, some, ◌==◌, ltb, if◌then◌else◌,
}

module _ {ℓ} {V : Type ℓ} where
  unfoldable pub find : ℕ → List (ℕ × V) → Option V
  find k [] = none
  find k ((j, v) ∷ m) = if j == k then some v else find k m

  abbrev pub is_found : Option V → Bool
  is_found none = false
  is_found (some v) = true

  unfoldable pub contains : ℕ → List (ℕ × V) → Bool
  unfolding find
  contains k m = is_found (find k m)

  abbrev pub value_or : Option V → V → V
  value_or none default_value = default_value
  value_or (some v) default_value = v

  unfoldable pub try_get : ℕ → V → List (ℕ × V) → V
  unfolding find
  try_get k default_value m = value_or (find k m) default_value

  -- std::map::insert: a key that is there keeps its value.
  unfoldable pub insert : ℕ → V → List (ℕ × V) → List (ℕ × V)
  insert k v [] = (k, v) ∷ []
  insert k v ((j, w) ∷ m) =
      if j == k then (j, w) ∷ m else if ltb k j then (k, v) ∷ (j, w) ∷ m else (j, w) ∷ insert k v m

  -- A write through an iterator: the value of a key that is there.
  unfoldable pub assign : ℕ → V → List (ℕ × V) → List (ℕ × V)
  assign k v [] = []
  assign k v ((j, w) ∷ m) = if j == k then (j, v) ∷ m else (j, w) ∷ assign k v m

  unfoldable pub try_set : ℕ → V → List (ℕ × V) → List (ℕ × V)
  unfolding contains assign insert
  try_set k v m = if contains k m then assign k v m else insert k v m

  unfoldable pub try_insert : ℕ → V → List (ℕ × V) → List (ℕ × V)
  unfolding contains insert
  try_insert k v m = if contains k m then m else insert k v m

  unfoldable pub erase : ℕ → List (ℕ × V) → List (ℕ × V)
  erase k [] = []
  erase k ((j, w) ∷ m) = if j == k then m else (j, w) ∷ erase k m

  -- Whether the key was there, and the map without it.
  unfoldable pub try_erase : ℕ → List (ℕ × V) → Bool × List (ℕ × V)
  unfolding contains erase
  try_erase k m = (contains k m, erase k m)

  unfoldable pub size : List (ℕ × V) → ℕ
  size [] = 0
  size (x ∷ m) = suc (size m)
