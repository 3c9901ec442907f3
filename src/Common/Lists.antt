-- ===== src/Common/Lists.antt =====
-- Lists measured, indexed and counted by native numbers.
use Prim.Native.Nat.{ℕ, zero, suc, ◌+◌}
use mathlib.Core.Path.{◌≡◌, refl, ap}
use mathlib.Core.Logic.{◌≢◌}
use mathlib.Core.List.{List, [], ◌∷◌, ◌++◌}
use mathlib.Core.Option.{Option, none, some}
use native.Mathlib.Omega.{arith}
use mahjong_server.Common.Tests.{◌==◌, if◌then◌else◌}

module _ {ℓ} {A : Type ℓ} where
  abbrev pub length : List A → ℕ
  length [] = 0
  length (x ∷ xs) = suc (length xs)

  abbrev pub get_elem? : List A → ℕ → Option A
  get_elem? [] i = none
  get_elem? (x ∷ xs) zero = some x
  get_elem? (x ∷ xs) (suc i) = get_elem? xs i

  abbrev pub get_or : List A → ℕ → A → A
  get_or [] i d = d
  get_or (x ∷ xs) zero d = x
  get_or (x ∷ xs) (suc i) d = get_or xs i d

  -- A write out of bounds changes nothing.
  abbrev pub set : List A → ℕ → A → List A
  set [] i v = []
  set (x ∷ xs) zero v = v ∷ xs
  set (x ∷ xs) (suc i) v = x ∷ set xs i v

  abbrev pub replicate : ℕ → A → List A
  replicate zero a = []
  replicate (suc n) a = a ∷ replicate n a

  -- `v.erase(v.begin() + i)`; an index out of bounds changes nothing.
  abbrev pub erase_idx : List A → ℕ → List A
  erase_idx [] i = []
  erase_idx (x ∷ xs) zero = xs
  erase_idx (x ∷ xs) (suc i) = x ∷ erase_idx xs i

  pub length-append : (xs ys : List A) → length (xs ++ ys) ≡ length xs + length ys
  length-append [] ys = omega arith
  length-append (x ∷ xs) ys = omega (arith, length-append xs ys)

  pub length-set : (xs : List A) (i : ℕ) (v : A) → length (set xs i v) ≡ length xs
  length-set [] i v = refl
  length-set (x ∷ xs) zero v = refl
  length-set (x ∷ xs) (suc i) v = ap suc (length-set xs i v)

abbrev pub All {ℓ κ} : {E : Type ℓ} → (E → Type κ) → List E → Type κ
All Holds [] = Unit
All Holds (e ∷ l) = Holds e × All Holds l

pub All-append {ℓ κ} :
    {E : Type ℓ} (Holds : E → Type κ) (l m : List E)
    → All Holds l
    → All Holds m
    → All Holds (l ++ m)
All-append Holds [] m none_left right = right
All-append Holds (e ∷ l) m (first, left) right = (first, All-append Holds l m left right)

-- How often `a` stands in a list of numbers.
abbrev pub count : ℕ → List ℕ → ℕ
count a [] = 0
count a (x ∷ xs) = (if x == a then 1 else 0) + count a xs

pub count-append : (tile : ℕ) (l m : List ℕ) → count tile (l ++ m) ≡ count tile l + count tile m
count-append tile [] m = ground arith
count-append tile (t ∷ l) m = ground (arith, count-append tile l m)

-- Two lists hold the same numbers, each equally often.
abbrev pub SameTiles : List ℕ → List ℕ → Type 0
SameTiles xs ys = (a : ℕ) → count a xs ≡ count a ys

pub count-replicate_self : (n a : ℕ) → count a (replicate n a) ≡ n
count-replicate_self zero a = refl
count-replicate_self (suc n) a = ground (arith, count-replicate_self n a)

pub count-replicate_ne : (n a b : ℕ) → b ≢ a → count a (replicate n b) ≡ 0
count-replicate_ne zero a b h = refl
count-replicate_ne (suc n) a b h = ground (arith, count-replicate_ne n a b h)

pub length-replicate {ℓ} : {A : Type ℓ} (n : ℕ) (a : A) → length (replicate n a) ≡ n
length-replicate zero a = refl
length-replicate (suc n) a = ap suc (length-replicate n a)
