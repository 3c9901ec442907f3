-- ===== src/Stl/TxMap/Laws.antt =====
-- The laws of the map: what a key holds after each operation, and that the keys stay in order.
use mahjong_server.Common.{
  ℕ, ◌+◌, ◌≤◌, ◌<◌, ◌≡◌, refl, List, [], ◌∷◌, none, some, ◌==◌, if◌then◌else◌, arith,
}
use mahjong_server.Stl.TxMap.{
  find, is_found, value_or, contains, insert, assign, try_set, erase, try_erase,
}

-- The keys rise strictly from `b` on.
abbrev pub IsOrdered {ℓ} : {V : Type ℓ} → ℕ → List (ℕ × V) → Type 0
IsOrdered b [] = Unit {0}
IsOrdered b ((k, v) ∷ m) = (b ≤ k) × IsOrdered (k + 1) m

module _ {ℓ} {V : Type ℓ} where
  pub find-below : (k b : ℕ) (m : List (ℕ × V)) → k < b → IsOrdered b m → find k m ≡ none
  unfolding find
  find-below k b [] h o = refl
  find-below k b ((j, w) ∷ m) h o = ground (arith, find-below k (j + 1) m)

  IsOrdered-mono : (b c : ℕ) (m : List (ℕ × V)) → b ≤ c → IsOrdered c m → IsOrdered b m
  IsOrdered-mono b c [] h o = tt
  IsOrdered-mono b c ((j, w) ∷ m) h o = (omega arith, o.1)

  pub insert-IsOrdered :
      (b k : ℕ) (v : V) (m : List (ℕ × V)) → b ≤ k → IsOrdered b m → IsOrdered b (insert k v m)
  unfolding insert
  insert-IsOrdered b k v [] h o = (h, tt)
  insert-IsOrdered b k v ((j, w) ∷ m) h o = ground (arith, insert-IsOrdered (j + 1) k v m)

  pub erase-IsOrdered : (b k : ℕ) (m : List (ℕ × V)) → IsOrdered b m → IsOrdered b (erase k m)
  unfolding erase
  erase-IsOrdered b k [] o = tt
  erase-IsOrdered b k ((j, w) ∷ m) o =
      ground (arith, erase-IsOrdered (j + 1) k m, IsOrdered-mono b (j + 1) m)

  pub assign-IsOrdered :
      (b k : ℕ) (v : V) (m : List (ℕ × V)) → IsOrdered b m → IsOrdered b (assign k v m)
  unfolding assign
  assign-IsOrdered b k v [] o = tt
  assign-IsOrdered b k v ((j, w) ∷ m) o = ground (arith, assign-IsOrdered (j + 1) k v m)

  -- A key that is there keeps its value; a new one gets it; the others are as they were.
  pub find-insert :
      (b k j : ℕ) (v : V) (m : List (ℕ × V))
      → IsOrdered b m
      → find j (insert k v m) ≡ (if k == j then some (value_or (find k m) v) else find j m)
  unfolding find insert
  find-insert b k j v [] o = ground arith
  find-insert b k j v ((i, w) ∷ m) o =
      ground (arith, find-insert (i + 1) k j v m, find-below k (i + 1) m)

  pub find-erase :
      (b k j : ℕ) (m : List (ℕ × V))
      → IsOrdered b m
      → find j (erase k m) ≡ (if k == j then none else find j m)
  unfolding find erase
  find-erase b k j [] o = ground arith
  find-erase b k j ((i, w) ∷ m) o = ground (arith, find-erase (i + 1) k j m, find-below k (i + 1) m)

  pub find-assign :
      (k j : ℕ) (v : V) (m : List (ℕ × V))
      → find j (assign k v m)
        ≡ (if k == j then (if contains k m then some v else none) else find j m)
  unfolding find assign contains
  find-assign k j v [] = ground arith
  find-assign k j v ((i, w) ∷ m) = ground (arith, find-assign k j v m)

  find-try_set :
      (k j : ℕ) (v : V) (m : List (ℕ × V))
      → IsOrdered 0 m
      → find j (try_set k v m) ≡ (if k == j then some v else find j m)
  unfolding try_set contains
  find-try_set k j v m o = ground (arith, find-assign k j v m, find-insert 0 k j v m)

  -- On a map in order, after each write a key holds: what it held if it was there, else the new value
  -- (insert); the new value (try_set); nothing (try_erase, which answers whether it was there). Every
  -- other key holds what it held, and the keys stay in order.
  pub writes_lem :
      (k j : ℕ) (v : V) (m : List (ℕ × V))
      → IsOrdered 0 m
      → (find j (insert k v m) ≡ (if k == j then some (value_or (find k m) v) else find j m))
        × (find j (try_set k v m) ≡ (if k == j then some v else find j m))
        × (find j (try_erase k m).1 ≡ (if k == j then none else find j m))
        × ((try_erase k m).0 ≡ is_found (find k m))
        × IsOrdered 0 (insert k v m)
        × IsOrdered 0 (try_set k v m)
        × IsOrdered 0 (try_erase k m).1
  unfolding try_erase contains try_set
  writes_lem k j v m o = (
    find-insert 0 k j v m o,
    find-try_set k j v m o,
    find-erase 0 k j m o,
    refl,
    insert-IsOrdered 0 k v m (omega arith) o,
    ground (arith, insert-IsOrdered 0 k v m, assign-IsOrdered 0 k v m),
    erase-IsOrdered 0 k m o,
  )
