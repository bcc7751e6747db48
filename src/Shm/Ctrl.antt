-- ===== src/Shm/Ctrl.antt =====
-- The CTRL bits of reg_map.hpp (`ctrl_bits`), with the operations that the code makes on them:
-- test, atomic or, atomic and with the complement.
use deepspan.Common.{ℕ, ◌^◌, ◌<◌, ◌≡◌, Bool, true, false, not, ◌==◌, bit_and, bit_or, arith}
use deepspan.Common.Bits.{and_one, and_two, or_one, or_two, and_not_two}

-- ctrl & START
unfoldable pub has_start : ℕ → Bool
has_start c = not (bit_and c 2 == 0)

-- ctrl | START
unfoldable pub set_start : ℕ → ℕ
set_start c = bit_or c 2

-- ctrl & ~START
unfoldable pub clear_start : ℕ → ℕ
clear_start c = bit_and c 0xffff_fffd

-- ctrl & RESET
unfoldable pub has_reset : ℕ → Bool
has_reset c = not (bit_and c 1 == 0)

-- ctrl | RESET
unfoldable pub set_reset : ℕ → ℕ
set_reset c = bit_or c 1

pub has_start-set_start : (c : ℕ) → has_start (set_start c) ≡ true
unfolding has_start set_start
has_start-set_start c = ground (arith, and_two (bit_or c 2), or_two c)

pub has_start-clear_start : (c : ℕ) → c < 2 ^ 32 → has_start (clear_start c) ≡ false
unfolding has_start clear_start
has_start-clear_start c h = ground (arith, and_two (bit_and c 0xffff_fffd), and_not_two c h)

pub has_start-set_reset : (c : ℕ) → has_start (set_reset c) ≡ has_start c
unfolding has_start set_reset
has_start-set_reset c = ground (arith, and_two (bit_or c 1), and_two c, or_one c)

pub has_reset-set_reset : (c : ℕ) → has_reset (set_reset c) ≡ true
unfolding has_reset set_reset
has_reset-set_reset c = ground (arith, and_one (bit_or c 1), or_one c)

pub has_reset-set_start : (c : ℕ) → has_reset (set_start c) ≡ has_reset c
unfolding has_reset set_start
has_reset-set_start c = ground (arith, and_one (bit_or c 2), and_one c, or_two c)

pub has_reset-clear_start : (c : ℕ) → c < 2 ^ 32 → has_reset (clear_start c) ≡ has_reset c
unfolding has_reset clear_start
has_reset-clear_start c h =
    ground (arith, and_one (bit_and c 0xffff_fffd), and_one c, and_not_two c h)

pub set_start-lt : (c : ℕ) → c < 2 ^ 32 → set_start c < 2 ^ 32
unfolding set_start
set_start-lt c h = omega (arith, or_two c)

pub set_reset-lt : (c : ℕ) → c < 2 ^ 32 → set_reset c < 2 ^ 32
unfolding set_reset
set_reset-lt c h = omega (arith, or_one c)

pub clear_start-lt : (c : ℕ) → c < 2 ^ 32 → clear_start c < 2 ^ 32
unfolding clear_start
clear_start-lt c h = omega (arith, and_not_two c h)
