-- ===== src/Common/Bytes.antt =====
-- Bytes and little-endian words, as `memcpy` between a uint32_t and a buffer reads and writes them.
use deepspan.Common.{
  ℕ, zero, suc, ◌+◌, ◌*◌, ◌/◌, ◌%◌, ◌^◌, ◌<◌, ◌≡◌, List, [], ◌∷◌, ◌++◌, take, drop, replicate,
  arith,
}

abbrev pub IsBytes : List ℕ → Type 0
IsBytes [] = Unit
IsBytes (b ∷ bs) = (b < 256) × IsBytes bs

pub IsBytes-append : (xs ys : List ℕ) → IsBytes xs → IsBytes ys → IsBytes (xs ++ ys)
IsBytes-append [] ys hx hy = hy
IsBytes-append (x ∷ xs) ys hx hy = (hx.0, IsBytes-append xs ys hx.1 hy)

pub IsBytes-split : (xs ys : List ℕ) → IsBytes (xs ++ ys) → IsBytes xs × IsBytes ys
IsBytes-split [] ys h = (tt, h)
IsBytes-split (x ∷ xs) ys h = ((h.0, (IsBytes-split xs ys h.1).0), (IsBytes-split xs ys h.1).1)

pub IsBytes-take : (n : ℕ) (xs : List ℕ) → IsBytes xs → IsBytes (take n xs)
IsBytes-take zero xs h = tt
IsBytes-take (suc n) [] h = tt
IsBytes-take (suc n) (x ∷ xs) h = (h.0, IsBytes-take n xs h.1)

pub IsBytes-drop : (n : ℕ) (xs : List ℕ) → IsBytes xs → IsBytes (drop n xs)
IsBytes-drop zero xs h = h
IsBytes-drop (suc n) [] h = tt
IsBytes-drop (suc n) (x ∷ xs) h = IsBytes-drop n xs h.1

pub IsBytes-replicate : (n : ℕ) → IsBytes (replicate n 0)
IsBytes-replicate zero = tt
IsBytes-replicate (suc n) = (omega arith, IsBytes-replicate n)

unfoldable pub le32 : ℕ → List ℕ
le32 n = n % 256 ∷ n / 2 ^ 8 % 256 ∷ n / 2 ^ 16 % 256 ∷ n / 2 ^ 24 % 256 ∷ []

unfoldable pub le_value : List ℕ → ℕ
le_value [] = 0
le_value (b ∷ bs) = b + 256 * le_value bs

pub le_value-le32 : (n : ℕ) → n < 2 ^ 32 → le_value (le32 n) ≡ n
unfolding le_value le32
le_value-le32 n h = omega arith

-- Four bytes are stored as they were loaded.
pub le32-le_value :
    (b0 b1 b2 b3 : ℕ) (bs : List ℕ)
    → IsBytes (b0 ∷ b1 ∷ b2 ∷ b3 ∷ bs)
    → le32 (le_value (b0 ∷ b1 ∷ b2 ∷ b3 ∷ [])) ≡ b0 ∷ b1 ∷ b2 ∷ b3 ∷ []
unfolding le_value le32
le32-le_value b0 b1 b2 b3 bs h = ground arith
