-- ===== src/Pool/Lists.antt =====
-- Writes and erasures at an index, seen through the number of tiles of each kind.
use mahjong_server.Common.{
  ℕ, zero, suc, ◌+◌, ◌≤◌, ◌<◌, ◌≡◌, refl, List, [], ◌∷◌, arith, ◌==◌, if◌then◌else◌, count, length,
  get_or, set, erase_idx,
}

abbrev pub one_if : ℕ → ℕ → ℕ
one_if y x = if y == x then 1 else 0

module _ (x d : ℕ) where
  pub count-erase_idx :
      (i : ℕ) (l : List ℕ)
      → i < length l
      → one_if (get_or l i d) x + count x (erase_idx l i) ≡ count x l
  count-erase_idx i [] h = absurd (omega arith)
  count-erase_idx zero (y ∷ l) h = refl
  count-erase_idx (suc i) (y ∷ l) h = omega (arith, count-erase_idx i l (omega arith))

  pub count-set :
      (i v : ℕ) (l : List ℕ)
      → i < length l
      → one_if (get_or l i d) x + count x (set l i v) ≡ one_if v x + count x l
  count-set i v [] h = absurd (omega arith)
  count-set zero v (y ∷ l) h = omega arith
  count-set (suc i) v (y ∷ l) h = omega (arith, count-set i v l (omega arith))

pub length-erase_idx : (i : ℕ) (l : List ℕ) → i < length l → suc (length (erase_idx l i)) ≡ length l
length-erase_idx i [] h = absurd (omega arith)
length-erase_idx zero (y ∷ l) h = refl
length-erase_idx (suc i) (y ∷ l) h = omega (arith, length-erase_idx i l (omega arith))

-- What stands at `j` after a write of that very value at `i`.
pub get_or-set_same : (d i j : ℕ) (l : List ℕ) → get_or (set l i (get_or l j d)) j d ≡ get_or l j d
get_or-set_same d i j [] = refl
get_or-set_same d zero zero (y ∷ l) = refl
get_or-set_same d zero (suc j) (y ∷ l) = refl
get_or-set_same d (suc i) zero (y ∷ l) = refl
get_or-set_same d (suc i) (suc j) (y ∷ l) = get_or-set_same d i j l

-- The tiles in front of an index.
abbrev pub take : ℕ → List ℕ → List ℕ
take zero l = []
take (suc n) [] = []
take (suc n) (y ∷ l) = y ∷ take n l

pub count-take-set :
    (x v i : ℕ) (l : List ℕ)
    → i < length l
    → count x (take (suc i) (set l i v)) ≡ count x (take i l) + one_if v x
count-take-set x v i [] h = absurd (omega arith)
count-take-set x v zero (y ∷ l) h = omega arith
count-take-set x v (suc i) (y ∷ l) h = omega (arith, count-take-set x v i l (omega arith))

pub take-all : (n : ℕ) (l : List ℕ) → length l ≤ n → take n l ≡ l
take-all zero [] h = refl
take-all zero (y ∷ l) h = absurd (omega arith)
take-all (suc n) [] h = refl
take-all (suc n) (y ∷ l) h = rw (take-all n l (omega arith))
