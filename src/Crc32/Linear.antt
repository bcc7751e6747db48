-- ===== src/Crc32/Linear.antt =====
-- The table does the work of eight rounds: a round is linear over exclusive or.
use deepspan.Common.{
  ℕ, zero, suc, ◌+◌, ◌*◌, ◌/◌, ◌%◌, ◌^◌, ◌<◌, ◌≡◌, sym, ap, ap₂, ◌∙◌, bit_xor, arith, get_or,
}
use deepspan.Common.Bits.{
  bit_xor_step, xor_half, xor_odd, xor_comm, xor_assoc, xor-zero, and_one, and_byte,
}
use native.Mathlib.Nat.{pow-suc, div-div-eq-div-mul}
use deepspan.Crc32.{poly, round, rounds, make_table, table, update}

xor_left_comm : (a b c : ℕ) → bit_xor a (bit_xor b c) ≡ bit_xor b (bit_xor a c)
xor_left_comm a b c =
    sym (xor_assoc a b c) ∙ ap (λ (t : ℕ). bit_xor t c) (xor_comm a b) ∙ xor_assoc b a c

double_pow : (h k : ℕ) → h * 2 ^ suc k ≡ 2 * (h * 2 ^ k)
double_pow h k = omega (arith, ap (λ (t : ℕ). h * t) (pow-suc 2 k))

-- A number that is even does not reach the test of a round.
pub round-xor_even : (e y : ℕ) → round (bit_xor (2 * e) y) ≡ bit_xor e (round y)
unfolding round
round-xor_even e y = ground (
  arith,
  and_one (bit_xor (2 * e) y),
  and_one y,
  xor_odd (2 * e) y,
  half,
  xor_left_comm poly e (y / 2),
)
  where
    half : bit_xor (2 * e) y / 2 ≡ bit_xor e (y / 2)
    half = xor_half (2 * e) y ∙ ap (λ (t : ℕ). bit_xor t (y / 2)) (omega arith)

rounds-xor_high : (k h y : ℕ) → rounds k (bit_xor (h * 2 ^ k) y) ≡ bit_xor h (rounds k y)
unfolding rounds
rounds-xor_high zero h y = ap (λ (t : ℕ). bit_xor t y) (omega arith)
rounds-xor_high (suc k) h y =
    ap (λ (t : ℕ). rounds k (round (bit_xor t y))) (double_pow h k)
    ∙ ap (rounds k) (round-xor_even (h * 2 ^ k) y)
    ∙ rounds-xor_high k h (round y)

-- Fields that do not overlap are combined by a sum.
pub xor_fields : (k h l : ℕ) → l < 2 ^ k → bit_xor (h * 2 ^ k) l ≡ h * 2 ^ k + l
xor_fields zero h zero p = rw xor-zero (omega arith)
xor_fields zero h (suc l) p = absurd (omega arith)
xor_fields (suc k) h l p = omega (
  arith,
  bit_xor_step (h * 2 ^ suc k) l,
  double_pow h k,
  ap (λ (t : ℕ). bit_xor t (l / 2)) half,
  xor_fields k h (l / 2) (omega (arith, pow-suc 2 k)),
)
  where
    half : h * 2 ^ suc k / 2 ≡ h * 2 ^ k
    half = omega (arith, double_pow h k)

rounds_split : (x : ℕ) → rounds 8 x ≡ bit_xor (x / 256) (rounds 8 (x % 256))
rounds_split x =
    ap (rounds 8) (sym (xor_fields 8 (x / 256) (x % 256) (omega arith) ∙ omega arith))
    ∙ rounds-xor_high 8 (x / 256) (x % 256)

get_or-make_table : (left i j : ℕ) → j < left → get_or (make_table left i) j 0 ≡ rounds 8 (i + j)
unfolding make_table
get_or-make_table zero i j p = absurd (omega arith)
get_or-make_table (suc left) i zero p = ap (rounds 8) (omega arith)
get_or-make_table (suc left) i (suc j) p =
    get_or-make_table left (i + 1) j (omega arith) ∙ ap (rounds 8) (omega arith)

get_or-table : (j : ℕ) → j < 256 → get_or table j 0 ≡ rounds 8 j
unfolding table
get_or-table j p = get_or-make_table 256 0 j p ∙ ap (rounds 8) (omega arith)

div_pow_suc : (k n : ℕ) → n / 2 ^ suc k ≡ n / 2 / 2 ^ k
div_pow_suc k n =
    ap (λ (t : ℕ). n / t) (omega (arith, pow-suc 2 k)) ∙ sym (div-div-eq-div-mul n 2 (2 ^ k))

-- What is below a power of two does not reach the quotient by it.
xor_div_low : (k a b : ℕ) → b < 2 ^ k → bit_xor a b / 2 ^ k ≡ a / 2 ^ k
xor_div_low zero a zero p = ap (λ (t : ℕ). t / 1) (xor-zero a)
xor_div_low zero a (suc b) p = absurd (omega arith)
xor_div_low (suc k) a b p =
    div_pow_suc k (bit_xor a b)
    ∙ ap (λ (t : ℕ). t / 2 ^ k) (xor_half a b)
    ∙ xor_div_low k (a / 2) (b / 2) (omega (arith, pow-suc 2 k))
    ∙ sym (div_pow_suc k a)

-- One table lookup is eight rounds on the register with the byte mixed in.
pub update-rounds : (crc b : ℕ) → b < 256 → update crc b ≡ rounds 8 (bit_xor crc b)
unfolding update
update-rounds crc b p =
    ap₂ bit_xor
      (ap (λ (t : ℕ). get_or table t 0) (and_byte x) ∙ get_or-table (x % 256) (omega arith))
      (sym (xor_div_low 8 crc b p))
    ∙ xor_comm (rounds 8 (x % 256)) (x / 256)
    ∙ sym (rounds_split x)
  where
    x : ℕ
    x = bit_xor crc b
