-- ===== src/Frame/Bytes.antt =====
-- A block of memory as the list of its bytes: memcpy to and from it, and what is read back.
pub mod Laws
use mahjong_server.Common.{ℕ, zero, suc, List, [], ◌∷◌, get_or, set}

-- memcpy(buffer + p, bytes, length of bytes)
abbrev pub copy_to : ℕ → List ℕ → List ℕ → List ℕ
copy_to p [] buffer = buffer
copy_to p (b ∷ bytes) buffer = copy_to (suc p) bytes (set buffer p b)

-- The `n` bytes from `p` on.
abbrev pub bytes_at : ℕ → ℕ → List ℕ → List ℕ
bytes_at p zero buffer = []
bytes_at p (suc n) buffer = get_or buffer p 0 ∷ bytes_at (suc p) n buffer

abbrev pub rest_after : ℕ → List ℕ → List ℕ
rest_after zero l = l
rest_after (suc n) [] = []
rest_after (suc n) (b ∷ l) = rest_after n l
