-- ===== src/Frame/Binary/Loops.antt =====
-- The loops that copy the bytes of a number, in either order.
use mahjong_server.Common.{
  ℕ, zero, suc, ◌+◌, ◌/◌, ◌^◌, ◌≤◌, ◌<◌, ◌≡◌, refl, ap, ap₂, sym, ◌∙◌, ◌≢◌, Bool, true, false, List,
  [], ◌∷◌, length, get_or, set, length-set, arith,
}
use mahjong_server.Frame.Bytes.{copy_to, bytes_at}
use mahjong_server.Frame.Bytes.Laws.{read_written, read_elsewhere, bytes_at-copy_to}
use mahjong_server.Frame.Binary.{to_bytes, of_bytes, byte_offset, read_bytes, write_bytes}

pub same_bytes :
    (l m : List ℕ)
    → length l ≡ length m
    → ((i : ℕ) → i < length l → get_or l i 0 ≡ get_or m i 0)
    → l ≡ m
same_bytes [] [] e each = refl
same_bytes [] (b ∷ m) e each = absurd (omega arith)
same_bytes (a ∷ l) [] e each = absurd (omega arith)
same_bytes (a ∷ l) (b ∷ m) e each =
    ap₂ ◌∷◌ (each 0 (omega arith))
      (same_bytes l m (omega arith) (λ i h. each (suc i) (omega arith)))

pub length-to_bytes : (size value : ℕ) → length (to_bytes size value) ≡ size
length-to_bytes zero value = refl
length-to_bytes (suc size) value = ap suc (length-to_bytes size (value / 256))

pub of_bytes-to_bytes :
    (size value : ℕ) → value < 256 ^ size → of_bytes (to_bytes size value) ≡ value
of_bytes-to_bytes zero value h = omega arith
of_bytes-to_bytes (suc size) value h =
    let rest = of_bytes-to_bytes size (value / 256) (grind arith) in omega arith

pub get_or-bytes_at :
    (p n j : ℕ) (buffer : List ℕ)
    → j < n
    → get_or (bytes_at p n buffer) j 0 ≡ get_or buffer (p + j) 0
get_or-bytes_at p zero j buffer h = absurd (omega arith)
get_or-bytes_at p (suc n) zero buffer h = ap (λ i. get_or buffer i 0) (omega arith)
get_or-bytes_at p (suc n) (suc j) buffer h =
    get_or-bytes_at (suc p) n j buffer (omega arith) ∙ ap (λ i. get_or buffer i 0) (omega arith)

pub get_or-copy_to :
    (p j : ℕ) (bytes buffer : List ℕ)
    → p + length bytes ≤ length buffer
    → j < length bytes
    → get_or (copy_to p bytes buffer) (p + j) 0 ≡ get_or bytes j 0
get_or-copy_to p j bytes buffer room h =
    sym (get_or-bytes_at p (length bytes) j (copy_to p bytes buffer) h)
    ∙ ap (λ l. get_or l j 0) (bytes_at-copy_to p bytes buffer room)

-- The order in which the loops go through a number's bytes: its own inverse.
pub byte_offset-lt : (inverse : Bool) (size i : ℕ) → i < size → byte_offset inverse size i < size
unfolding byte_offset
byte_offset-lt true size i h = omega arith
byte_offset-lt false size i h = h

pub byte_offset-twice :
    (inverse : Bool) (size i : ℕ)
    → i < size
    → byte_offset inverse size (byte_offset inverse size i) ≡ i
unfolding byte_offset
byte_offset-twice true size i h = omega arith
byte_offset-twice false size i h = refl

byte_offset-ne :
    (inverse : Bool) (size i j : ℕ)
    → i < size
    → j < size
    → i ≢ j
    → byte_offset inverse size i ≢ byte_offset inverse size j
byte_offset-ne inverse size i j h k ne e = ne (
    sym (byte_offset-twice inverse size i h)
    ∙ ap (byte_offset inverse size) e
    ∙ byte_offset-twice inverse size j k)

-- The bytes in the order of the loop.
abbrev pub in_order : Bool → ℕ → List ℕ → ℕ → ℕ → List ℕ
in_order inverse size ptr zero i = []
in_order inverse size ptr (suc left) i =
    get_or ptr (byte_offset inverse size i) 0 ∷ in_order inverse size ptr left (suc i)

pub length-in_order :
    (inverse : Bool) (size : ℕ) (ptr : List ℕ) (left i : ℕ)
    → length (in_order inverse size ptr left i) ≡ left
length-in_order inverse size ptr zero i = refl
length-in_order inverse size ptr (suc left) i =
    ap suc (length-in_order inverse size ptr left (suc i))

pub get_or-in_order :
    (inverse : Bool) (size : ℕ) (ptr : List ℕ) (left i j : ℕ)
    → j < left
    → get_or (in_order inverse size ptr left i) j 0
      ≡ get_or ptr (byte_offset inverse size (i + j)) 0
get_or-in_order inverse size ptr zero i j h = absurd (omega arith)
get_or-in_order inverse size ptr (suc left) i zero h =
    ap (λ k. get_or ptr (byte_offset inverse size k) 0) (omega arith)
get_or-in_order inverse size ptr (suc left) i (suc j) h =
    get_or-in_order inverse size ptr left (suc i) j (omega arith)
    ∙ ap (λ k. get_or ptr (byte_offset inverse size k) 0) (omega arith)

pub write_bytes_lem :
    (inverse : Bool) (size : ℕ) (ptr : List ℕ) (left i index : ℕ) (buffer : List ℕ)
    → write_bytes inverse size ptr left i index buffer
      ≡ copy_to index (in_order inverse size ptr left i) buffer
unfolding write_bytes
write_bytes_lem inverse size ptr zero i index buffer = refl
write_bytes_lem inverse size ptr (suc left) i index buffer =
    write_bytes_lem inverse size ptr left (suc i) (suc index)
      (set buffer index (get_or ptr (byte_offset inverse size i) 0))

pub length-read_bytes :
    (inverse : Bool) (size : ℕ) (buffer : List ℕ) (left i index : ℕ) (ptr : List ℕ)
    → length (read_bytes inverse size buffer left i index ptr) ≡ length ptr
unfolding read_bytes
length-read_bytes inverse size buffer zero i index ptr = refl
length-read_bytes inverse size buffer (suc left) i index ptr =
    length-read_bytes inverse size buffer left (suc i) (suc index)
      (set ptr (byte_offset inverse size i) (get_or buffer index 0))
    ∙ length-set ptr (byte_offset inverse size i) (get_or buffer index 0)

-- The rounds left do not touch what earlier rounds wrote.
read_before :
    (inverse : Bool) (size : ℕ) (buffer : List ℕ) (left i index j : ℕ) (ptr : List ℕ)
    → i + left ≤ size
    → j < i
    → get_or (read_bytes inverse size buffer left i index ptr) (byte_offset inverse size j) 0
      ≡ get_or ptr (byte_offset inverse size j) 0
unfolding read_bytes
read_before inverse size buffer zero i index j ptr room h = refl
read_before inverse size buffer (suc left) i index j ptr room h =
    read_before inverse size buffer left (suc i) (suc index) j
      (set ptr (byte_offset inverse size i) (get_or buffer index 0)) (omega arith) (omega arith)
    ∙ read_elsewhere ptr (byte_offset inverse size i) (byte_offset inverse size j)
        (get_or buffer index 0)
        (byte_offset-ne inverse size i j (omega arith) (omega arith) (λ e. absurd (omega arith)))

pub read_bytes_lem :
    (inverse : Bool) (size : ℕ) (buffer : List ℕ) (left i index j : ℕ) (ptr : List ℕ)
    → i + left ≤ size
    → length ptr ≡ size
    → j < left
    → get_or (read_bytes inverse size buffer left i index ptr) (byte_offset inverse size (i + j)) 0
      ≡ get_or buffer (index + j) 0
unfolding read_bytes
read_bytes_lem inverse size buffer zero i index j ptr room e h = absurd (omega arith)
read_bytes_lem inverse size buffer (suc left) i index zero ptr room e h =
    ap
      (λ k.
        get_or (read_bytes inverse size buffer (suc left) i index ptr) (byte_offset inverse size k)
          0)
      {x = i + 0} {y = i} (omega arith)
    ∙ read_before inverse size buffer left (suc i) (suc index) i
        (set ptr (byte_offset inverse size i) (get_or buffer index 0)) (omega arith) (omega arith)
    ∙ read_written ptr (byte_offset inverse size i) (get_or buffer index 0)
        (omega (arith, byte_offset-lt inverse size i (omega arith)))
    ∙ ap (λ k. get_or buffer k 0) (omega arith)
read_bytes_lem inverse size buffer (suc left) i index (suc j) ptr room e h =
    ap
      (λ k.
        get_or (read_bytes inverse size buffer (suc left) i index ptr) (byte_offset inverse size k)
          0)
      {x = i + suc j} {y = suc i + j} (omega arith)
    ∙ read_bytes_lem inverse size buffer left (suc i) (suc index) j
        (set ptr (byte_offset inverse size i) (get_or buffer index 0)) (omega arith)
        (length-set ptr (byte_offset inverse size i) (get_or buffer index 0) ∙ e) (omega arith)
    ∙ ap (λ k. get_or buffer k 0) (omega arith)
