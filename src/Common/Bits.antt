-- ===== src/Common/Bits.antt =====
-- Laws of the native `bit_and`, `bit_or` and `bit_xor` at variables, from one equation for the
-- lowest digit each.
use Prim.Native.Nat.{
  ℕ, zero, suc, ◌+◌, ◌-◌, ◌*◌, ◌/◌, ◌%◌, ◌^◌, ◌≤◌, ◌<◌, min, max, bit_and, bit_or, bit_xor, digits,
  bitwise, differ, bit_and-bitwise, bit_or-bitwise, bit_xor-bitwise,
}
use mathlib.Core.Path.{◌≡◌, refl, sym, ap, ◌∙◌}
use native.Mathlib.Nat.{le_refl, mul_assoc, pow-suc, one-le-pow}
use native.Mathlib.Omega.{arith}

-- An operation `op` that takes digits apart, with `low` for a first operand of 0 and `pair` for a
-- pair of digits.
module _ (low : ℕ → ℕ) (pair : ℕ → ℕ → ℕ) where
  digits_low : (k b : ℕ) → digits low pair k 0 b ≡ low b
  digits_low zero b = refl
  digits_low (suc k) b = refl

  digits_enough : (k l a b : ℕ) → k ≤ l → a ≤ k → digits low pair l a b ≡ digits low pair k a b
  digits_enough k l zero b h e = digits_low l b ∙ sym (digits_low k b)
  digits_enough zero l (suc a) b h e = absurd (omega arith)
  digits_enough (suc k) zero (suc a) b h e = absurd (omega arith)
  digits_enough (suc k) (suc l) (suc a) b h e =
      ap (λ (t : ℕ). t * 2 + pair (suc a % 2) (b % 2))
        (digits_enough k l (suc a / 2) (b / 2) (omega arith) (omega arith))

  module _ (op : ℕ → ℕ → ℕ) (means : (a b : ℕ) → op a b ≡ bitwise low pair a b)
      (low_step : (b : ℕ) → low b ≡ low (b / 2) * 2 + pair 0 (b % 2)) where
    op_step : (a b : ℕ) → op a b ≡ op (a / 2) (b / 2) * 2 + pair (a % 2) (b % 2)
    op_step zero b =
        means 0 b ∙ low_step b ∙ ap (λ (t : ℕ). t * 2 + pair 0 (b % 2)) (sym (means 0 (b / 2)))
    op_step (suc a) b =
        means (suc a) b
        ∙ ap (λ (t : ℕ). t * 2 + pair (suc a % 2) (b % 2))
            (digits_enough (suc a / 2) a (suc a / 2) (b / 2) (omega arith) (le_refl _)
              ∙ sym (means (suc a / 2) (b / 2)))

pub bit_or_step : (a b : ℕ) → bit_or a b ≡ bit_or (a / 2) (b / 2) * 2 + max (a % 2) (b % 2)
bit_or_step = op_step (λ b. b) max bit_or bit_or-bitwise (λ b. omega arith)

pub bit_and_step : (a b : ℕ) → bit_and a b ≡ bit_and (a / 2) (b / 2) * 2 + min (a % 2) (b % 2)
bit_and_step = op_step (λ b. 0) min bit_and bit_and-bitwise (λ b. omega arith)

bit_xor_step_differ : (a b : ℕ) → bit_xor a b ≡ bit_xor (a / 2) (b / 2) * 2 + differ (a % 2) (b % 2)
bit_xor_step_differ = op_step (λ b. b) differ bit_xor bit_xor-bitwise (λ b. omega arith)

differ_digits : (x y : ℕ) → x < 2 → y < 2 → differ x y ≡ (x + y) % 2
differ_digits zero y hx hy = omega arith
differ_digits (suc zero) zero hx hy = omega arith
differ_digits (suc zero) (suc zero) hx hy = omega arith
differ_digits (suc zero) (suc (suc y)) hx hy = absurd (omega arith)
differ_digits (suc (suc x)) y hx hy = absurd (omega arith)

differ_mod : (a b : ℕ) → differ (a % 2) (b % 2) ≡ (a + b) % 2
differ_mod a b = omega (arith, differ_digits (a % 2) (b % 2) (omega arith) (omega arith))

pub bit_xor_step : (a b : ℕ) → bit_xor a b ≡ bit_xor (a / 2) (b / 2) * 2 + (a + b) % 2
bit_xor_step a b = omega (arith, bit_xor_step_differ a b, differ_mod a b)

-- Exclusive or is a commutative group of exponent 2. The bound `n` serves the induction.
xor-zero_below : (n a : ℕ) → a ≤ n → bit_xor a 0 ≡ a
xor-zero_below n zero h = refl
xor-zero_below zero (suc a) h = absurd (omega arith)
xor-zero_below (suc n) (suc a) h =
    omega (arith, bit_xor_step (suc a) 0, xor-zero_below n (suc a / 2) (omega arith))

pub xor-zero : (a : ℕ) → bit_xor a 0 ≡ a
xor-zero a = xor-zero_below a a (le_refl a)

pub zero-xor : (a : ℕ) → bit_xor 0 a ≡ a
zero-xor a = bit_xor-bitwise 0 a

xor_comm_below : (n a b : ℕ) → a ≤ n → b ≤ n → bit_xor a b ≡ bit_xor b a
xor_comm_below zero zero zero p q = refl
xor_comm_below zero zero (suc b) p q = absurd (omega arith)
xor_comm_below zero (suc a) b p q = absurd (omega arith)
xor_comm_below (suc n) a b p q = omega (
  arith,
  bit_xor_step a b,
  bit_xor_step b a,
  xor_comm_below n (a / 2) (b / 2) (omega arith) (omega arith),
)

pub xor_comm : (a b : ℕ) → bit_xor a b ≡ bit_xor b a
xor_comm a b = xor_comm_below (a + b) a b (omega arith) (omega arith)

pub xor_half : (a b : ℕ) → bit_xor a b / 2 ≡ bit_xor (a / 2) (b / 2)
xor_half a b = omega (arith, bit_xor_step a b)

pub xor_odd : (a b : ℕ) → bit_xor a b % 2 ≡ (a + b) % 2
xor_odd a b = omega (arith, bit_xor_step a b)

xor_assoc_below :
    (n a b c : ℕ) → a ≤ n → b ≤ n → c ≤ n → bit_xor (bit_xor a b) c ≡ bit_xor a (bit_xor b c)
xor_assoc_below zero zero b c p q r = simp zero-xor
xor_assoc_below zero (suc a) b c p q r = absurd (omega arith)
xor_assoc_below (suc n) a b c p q r = omega (
  arith,
  bit_xor_step (bit_xor a b) c,
  bit_xor_step a (bit_xor b c),
  xor_odd a b,
  xor_odd b c,
  ap (λ (t : ℕ). bit_xor t (c / 2)) (xor_half a b),
  ap (bit_xor (a / 2)) (xor_half b c),
  xor_assoc_below n (a / 2) (b / 2) (c / 2) (omega arith) (omega arith) (omega arith),
)

pub xor_assoc : (a b c : ℕ) → bit_xor (bit_xor a b) c ≡ bit_xor a (bit_xor b c)
xor_assoc a b c = xor_assoc_below (a + b + c) a b c (omega arith) (omega arith) (omega arith)

xor_self_below : (n a : ℕ) → a ≤ n → bit_xor a a ≡ 0
xor_self_below n zero h = refl
xor_self_below zero (suc a) h = absurd (omega arith)
xor_self_below (suc n) (suc a) h =
    omega (arith, bit_xor_step (suc a) (suc a), xor_self_below n (suc a / 2) (omega arith))

pub xor_self : (a : ℕ) → bit_xor a a ≡ 0
xor_self a = xor_self_below a a (le_refl a)

-- Masks.
and-zero_below : (n a : ℕ) → a ≤ n → bit_and a 0 ≡ 0
and-zero_below n zero h = refl
and-zero_below zero (suc a) h = absurd (omega arith)
and-zero_below (suc n) (suc a) h =
    omega (arith, bit_and_step (suc a) 0, and-zero_below n (suc a / 2) (omega arith))

pub and-zero : (a : ℕ) → bit_and a 0 ≡ 0
and-zero a = and-zero_below a a (le_refl a)

or-zero_below : (n a : ℕ) → a ≤ n → bit_or a 0 ≡ a
or-zero_below n zero h = refl
or-zero_below zero (suc a) h = absurd (omega arith)
or-zero_below (suc n) (suc a) h =
    omega (arith, bit_or_step (suc a) 0, or-zero_below n (suc a / 2) (omega arith))

pub or-zero : (a : ℕ) → bit_or a 0 ≡ a
or-zero a = or-zero_below a a (le_refl a)

pub and_one : (a : ℕ) → bit_and a 1 ≡ a % 2
and_one a = omega (arith, bit_and_step a 1, and-zero (a / 2))

pub and_two : (a : ℕ) → bit_and a 2 ≡ a / 2 % 2 * 2
and_two a = omega (arith, bit_and_step a 2, and_one (a / 2))

pub or_one : (a : ℕ) → bit_or a 1 ≡ a / 2 * 2 + 1
or_one a = omega (arith, bit_or_step a 1, or-zero (a / 2))

pub or_two : (a : ℕ) → bit_or a 2 ≡ a / 4 * 4 + 2 + a % 2
or_two a = omega (arith, bit_or_step a 2, or_one (a / 2))

mod_double : (a m : ℕ) → 0 < m → a % (2 * m) ≡ a / 2 % m * 2 + a % 2
mod_double a m h = grind arith

-- A mask of `k` ones is the remainder by `2 ^ k`.
pub and_mask : (k a : ℕ) → bit_and a (2 ^ k - 1) ≡ a % 2 ^ k
and_mask zero a = rw and-zero (omega arith)
and_mask (suc k) a = ground (
  arith,
  bit_and_step a (2 ^ suc k - 1),
  pow-suc 2 k,
  one-le-pow k 2,
  mod_double a (2 ^ k),
  and_mask k (a / 2),
)

pub and_byte : (a : ℕ) → bit_and a 0xff ≡ a % 256
and_byte a = and_mask 8 a

-- `x & ~(1 << 1)` on 32 bits.
pub and_not_two : (a : ℕ) → a < 2 ^ 32 → bit_and a 0xffff_fffd ≡ a / 4 * 4 + a % 2
and_not_two a h =
    omega
      (arith, bit_and_step a 0xffff_fffd, bit_and_step (a / 2) 0x7fff_fffe, and_mask 30 (a / 2 / 2))

or_comm_below : (n a b : ℕ) → a ≤ n → b ≤ n → bit_or a b ≡ bit_or b a
or_comm_below zero zero zero p q = refl
or_comm_below zero zero (suc b) p q = absurd (omega arith)
or_comm_below zero (suc a) b p q = absurd (omega arith)
or_comm_below (suc n) a b p q =
    let halves : bit_or (a / 2) (b / 2) ≡ bit_or (b / 2) (a / 2) =
      or_comm_below n (a / 2) (b / 2) (omega arith) (omega arith) in
    omega (arith, bit_or_step a b, bit_or_step b a, halves)

pub or_comm : (a b : ℕ) → bit_or a b ≡ bit_or b a
or_comm a b = or_comm_below (a + b) a b (omega arith) (omega arith)

-- The bits of `b` stand below those of a multiple of 2 ^ k.
pub or_disjoint : (k a b : ℕ) → b < 2 ^ k → bit_or (a * 2 ^ k) b ≡ a * 2 ^ k + b
or_disjoint zero a zero h = or-zero (a * 1) ∙ omega arith
or_disjoint zero a (suc b) h = absurd (omega arith)
or_disjoint (suc k) a b h =
    let shifted : a * 2 ^ suc k ≡ a * 2 ^ k * 2 =
      ap (a *◌) (pow-suc 2 k) ∙ sym (mul_assoc a (2 ^ k) 2) in
    ap (λ (t : ℕ). bit_or t b) shifted
    ∙ bit_or_step (a * 2 ^ k * 2) b
    ∙ ap (λ (t : ℕ). bit_or t (b / 2) * 2 + max (a * 2 ^ k * 2 % 2) (b % 2))
        (let e : a * 2 ^ k * 2 / 2 ≡ a * 2 ^ k = omega arith in e)
    ∙ omega (arith, shifted, or_disjoint k a (b / 2) (omega (arith, pow-suc 2 k)))

pub xor-lt : (k a b : ℕ) → a < 2 ^ k → b < 2 ^ k → bit_xor a b < 2 ^ k
xor-lt zero zero zero p q = omega arith
xor-lt zero zero (suc b) p q = absurd (omega arith)
xor-lt zero (suc a) b p q = absurd (omega arith)
xor-lt (suc k) a b p q = omega (
  arith,
  bit_xor_step a b,
  pow-suc 2 k,
  xor-lt k (a / 2) (b / 2) (omega (arith, pow-suc 2 k)) (omega (arith, pow-suc 2 k)),
)
