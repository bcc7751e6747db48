-- ===== src/HwModel/Args.antt =====
-- The command lines of sim/hw-model/src/main.cpp and sim/hw-model/src/firmware_sim.cpp, and what
-- becomes of the processes: std::stoul of an option's value throws out of main.
use deepspan.Common.{
  ℕ, ◌-◌, ◌%◌, ◌^◌, ◌<◌, ◌≡◌, refl, ap, ◌∙◌, Bool, true, false, if◌then◌else◌, ltb, leb, ◌==◌, ◌&&◌,
  ◌||◌, Option, none, some, [], ◌∷◌, ◌++◌, arith,
}
use deepspan.Server.StrMap.{Str, cmp, equal}
use deepspan.Server.DeviceIndex.{is_digit, value, starts_with_digit}
use deepspan.Server.Decimal.{to_decimal, value-to_decimal, starts_with_digit-to_decimal}

-- What follows the prefix, if the text begins with it: rfind(prefix, 0) == 0, and substr.
unfoldable pub strip : Str → Str → Option Str
strip [] s = some s
strip (c ∷ cs) [] = none
strip (c ∷ cs) (d ∷ ds) = let rest = strip cs ds in if c == d then rest else none

unfoldable pub is_space : ℕ → Bool
is_space c = c == 32 || (leb 9 c && leb c 13)

-- The number at the front; no digit, or one above ULONG_MAX, throws.
unfoldable pub read_number : Str → Option ℕ
read_number s =
    if starts_with_digit s
    then (if ltb (value 0 s) (2 ^ 64) then some (value 0 s) else none)
    else none

unfoldable pub negate : Option ℕ → Option ℕ
negate none = none
negate (some n) = some ((2 ^ 64 - n) % 2 ^ 64)

-- A sign may stand before the digits; std::stoul negates in an unsigned long.
unfoldable pub read_signed : Str → Option ℕ
read_signed [] = none
read_signed (c ∷ cs) =
    if c == 45
    then negate (read_number cs)
    else (if c == 43 then read_number cs else read_number (c ∷ cs))

unfoldable pub stoul : Str → Option ℕ
stoul [] = none
stoul (c ∷ cs) = let rest = stoul cs in if is_space c then rest else read_signed (c ∷ cs)

-- static_cast<uint32_t>
unfoldable pub to_uint32 : Option ℕ → Option ℕ
to_uint32 none = none
to_uint32 (some n) = some (n % 2 ^ 32)

abbrev pub same : Str → Str → Bool
same a b = elim (cmp a b) [ equal ↦ true | _ ↦ false ]

-- How a process ends: with an exit code, or by an exception that nobody catches.
pub data End : Type 0 where
  exits : ℕ → End
  aborts : End

pub strip-append : (pre s : Str) → strip pre (pre ++ s) ≡ some s
unfolding strip
strip-append [] s = refl
strip-append (c ∷ cs) s = ground (arith, strip-append cs s)

stoul-digits :
    (s : Str) → starts_with_digit s ≡ true → value 0 s < 2 ^ 32 → stoul s ≡ some (value 0 s)
unfolding stoul is_space read_signed read_number starts_with_digit is_digit
stoul-digits [] e h = absurd cc
stoul-digits (c ∷ cs) e h = ground (arith, e, h)

-- A uint32_t that is printed is read back.
pub to_uint32-stoul-to_decimal : (n : ℕ) → n < 2 ^ 32 → to_uint32 (stoul (to_decimal n)) ≡ some n
unfolding to_uint32
to_uint32-stoul-to_decimal n h =
    ap to_uint32 (
      stoul-digits (to_decimal n) (starts_with_digit-to_decimal n)
        (omega (arith, value-to_decimal n (omega (arith, h)), h)))
    ∙ ap some (
        let e : value 0 (to_decimal n) ≡ n = value-to_decimal n (omega (arith, h)) in
        let q : value 0 (to_decimal n) % 2 ^ 32 ≡ n = omega (arith, e, h) in q)
