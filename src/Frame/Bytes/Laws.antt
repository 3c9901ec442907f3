-- ===== src/Frame/Bytes/Laws.antt =====
-- What stands in a block of memory after a copy.
use mahjong_server.Common.{
  ℕ, zero, suc, ◌+◌, ◌-◌, ◌≤◌, ◌<◌, ◌≡◌, refl, ap, ap₂, sym, ◌∙◌, ◌≢◌, List, [], ◌∷◌, ◌++◌, length,
  get_or, set, length-set, arith,
}
use mahjong_server.Frame.Bytes.{copy_to, bytes_at, rest_after}

pub read_written : (buffer : List ℕ) (p b : ℕ) → p < length buffer → get_or (set buffer p b) p 0 ≡ b
read_written [] p b h = absurd (omega arith)
read_written (x ∷ buffer) zero b h = refl
read_written (x ∷ buffer) (suc p) b h = read_written buffer p b (omega arith)

pub read_elsewhere :
    (buffer : List ℕ) (p q b : ℕ) → p ≢ q → get_or (set buffer p b) q 0 ≡ get_or buffer q 0
read_elsewhere [] p q b h = refl
read_elsewhere (x ∷ buffer) zero zero b h = absurd (h refl)
read_elsewhere (x ∷ buffer) zero (suc q) b h = refl
read_elsewhere (x ∷ buffer) (suc p) zero b h = refl
read_elsewhere (x ∷ buffer) (suc p) (suc q) b h = read_elsewhere buffer p q b (λ e. h (ap suc e))

pub length-copy_to :
    (p : ℕ) (bytes buffer : List ℕ) → length (copy_to p bytes buffer) ≡ length buffer
length-copy_to p [] buffer = refl
length-copy_to p (b ∷ bytes) buffer =
    length-copy_to (suc p) bytes (set buffer p b) ∙ length-set buffer p b

pub length-bytes_at : (p n : ℕ) (buffer : List ℕ) → length (bytes_at p n buffer) ≡ n
length-bytes_at p zero buffer = refl
length-bytes_at p (suc n) buffer = ap suc (length-bytes_at (suc p) n buffer)

before_copy :
    (p q : ℕ) (bytes buffer : List ℕ)
    → q < p
    → get_or (copy_to p bytes buffer) q 0 ≡ get_or buffer q 0
before_copy p q [] buffer h = refl
before_copy p q (b ∷ bytes) buffer h =
    before_copy (suc p) q bytes (set buffer p b) (omega arith)
    ∙ read_elsewhere buffer p q b (omega arith)

pub bytes_at-before :
    (p q n : ℕ) (bytes buffer : List ℕ)
    → q + n ≤ p
    → bytes_at q n (copy_to p bytes buffer) ≡ bytes_at q n buffer
bytes_at-before p q zero bytes buffer h = refl
bytes_at-before p q (suc n) bytes buffer h =
    ap₂ ◌∷◌ (before_copy p q bytes buffer (omega arith))
      (bytes_at-before p (suc q) n bytes buffer (omega arith))

pub bytes_at-copy_to :
    (p : ℕ) (bytes buffer : List ℕ)
    → p + length bytes ≤ length buffer
    → bytes_at p (length bytes) (copy_to p bytes buffer) ≡ bytes
bytes_at-copy_to p [] buffer h = refl
bytes_at-copy_to p (b ∷ bytes) buffer h =
    ap₂ ◌∷◌
      (before_copy (suc p) p bytes (set buffer p b) (omega arith)
        ∙ read_written buffer p b (omega arith))
      (bytes_at-copy_to (suc p) bytes (set buffer p b) (omega (arith, length-set buffer p b)))

pub bytes_at_same :
    (buffer : List ℕ) (p q m n : ℕ) → p ≡ q → m ≡ n → bytes_at p m buffer ≡ bytes_at q n buffer
bytes_at_same buffer p q m n e f = ap₂ (λ i k. bytes_at i k buffer) e f

pub bytes_at-add :
    (p m n q : ℕ) (buffer : List ℕ)
    → p + m ≡ q
    → bytes_at p (m + n) buffer ≡ bytes_at p m buffer ++ bytes_at q n buffer
bytes_at-add p zero n q buffer e = bytes_at_same buffer p q (0 + n) n (omega arith) (omega arith)
bytes_at-add p (suc m) n q buffer e =
    bytes_at_same buffer p p (suc m + n) (suc (m + n)) refl (omega arith)
    ∙ ap (λ l. get_or buffer p 0 ∷ l) (bytes_at-add (suc p) m n q buffer (omega arith))

-- What stands before a copy, and then the copy.
pub copied_behind :
    (p m q : ℕ) (bytes buffer : List ℕ)
    → p + m ≡ q
    → q + length bytes ≤ length buffer
    → bytes_at p (m + length bytes) (copy_to q bytes buffer) ≡ bytes_at p m buffer ++ bytes
copied_behind p m q bytes buffer e h =
    bytes_at-add p m (length bytes) q (copy_to q bytes buffer) e
    ∙ ap₂ ◌++◌ (bytes_at-before q p m bytes buffer (omega arith))
        (bytes_at-copy_to q bytes buffer h)

pub rest_after-bytes_at :
    (n p m q : ℕ) (buffer : List ℕ)
    → p + n ≡ q
    → rest_after n (bytes_at p (n + m) buffer) ≡ bytes_at q m buffer
rest_after-bytes_at zero p m q buffer e =
    bytes_at_same buffer p q (0 + m) m (omega arith) (omega arith)
rest_after-bytes_at (suc n) p m q buffer e =
    ap (rest_after (suc n)) (bytes_at_same buffer p p (suc n + m) (suc (n + m)) refl (omega arith))
    ∙ rest_after-bytes_at n (suc p) m q buffer (omega arith)

pub rest_after-part :
    (n p m : ℕ) (buffer : List ℕ)
    → n ≤ m
    → rest_after n (bytes_at p m buffer) ≡ bytes_at (p + n) (m - n) buffer
rest_after-part n p m buffer h =
    ap (rest_after n) (bytes_at_same buffer p p m (n + (m - n)) refl (omega arith))
    ∙ rest_after-bytes_at n p (m - n) (p + n) buffer refl

rest_of : List ℕ → List ℕ
rest_of [] = []
rest_of (b ∷ l) = l

cons_parts : (a b : ℕ) (l m : List ℕ) → a ∷ l ≡ b ∷ m → (a ≡ b) × (l ≡ m)
unfolding rest_of
cons_parts a b l m e = (ap (λ k. get_or k 0 0) e, ap rest_of e)

-- Bytes that are two rows one behind the other.
pub split_at_row :
    (row others : List ℕ) (p n : ℕ) (buffer : List ℕ)
    → bytes_at p n buffer ≡ row ++ others
    → (bytes_at p (length row) buffer ≡ row)
      × (bytes_at (p + length row) (length others) buffer ≡ others)
split_at_row [] others p n buffer e =
    let same : n ≡ length others = sym (length-bytes_at p n buffer) ∙ ap length e in
    (refl, bytes_at_same buffer (p + 0) p (length others) n (omega arith) (sym same) ∙ e)
split_at_row (b ∷ row) others p zero buffer e = absurd (omega (arith, ap length e))
split_at_row (b ∷ row) others p (suc n) buffer e =
    let parts = cons_parts (get_or buffer p 0) b (bytes_at (suc p) n buffer) (row ++ others) e in
    let behind = split_at_row row others (suc p) n buffer parts.1 in
    (
      ap₂ ◌∷◌ parts.0 behind.0,
      bytes_at_same buffer (p + suc (length row)) (suc p + length row) (length others)
            (length others) (omega arith) refl
          ∙ behind.1,
    )

-- A block of memory seen from a pointer into it.
pub bytes_at-rest_after :
    (p q n r : ℕ) (buffer : List ℕ)
    → p + q ≡ r
    → bytes_at q n (rest_after p buffer) ≡ bytes_at r n buffer
bytes_at-rest_after p q zero r buffer e = refl
bytes_at-rest_after p q (suc n) r buffer e =
    ap₂ ◌∷◌ (get_or-rest_after p q r buffer e)
      (bytes_at-rest_after p (suc q) n (suc r) buffer (omega arith))
  where
    get_or-rest_after :
        (p q r : ℕ) (buffer : List ℕ)
        → p + q ≡ r
        → get_or (rest_after p buffer) q 0 ≡ get_or buffer r 0
    get_or-rest_after zero q r buffer e = ap (λ i. get_or buffer i 0) (omega arith)
    get_or-rest_after (suc p) q r [] e = refl
    get_or-rest_after (suc p) q zero (b ∷ buffer) e = absurd (omega arith)
    get_or-rest_after (suc p) q (suc r) (b ∷ buffer) e =
        get_or-rest_after p q r buffer (omega arith)
