-- ===== src/Server/Decimal.antt =====
-- std::to_string as the plugins and the server build names and ids with
-- it (hwip/*/plugin, server/src), and what std::from_chars and std::stoul read back of it.
use deepspan.Common.{
  ℕ, zero, suc, ◌+◌, ◌*◌, ◌/◌, ◌%◌, ◌^◌, ◌<◌, ◌≤◌, ◌≡◌, refl, sym, ap, subst, ◌∙◌, true,
  if◌then◌else◌, ltb, none, some, [], ◌∷◌, ◌++◌, arith,
}
use native.Mathlib.Nat.{pow-succ'}
use deepspan.Server.StrMap.{Str}
use deepspan.Server.Registry.{pos, slash}
use deepspan.Server.DeviceIndex.{
  is_digit, value, or_else, index_of, or_minus_one, starts_with_digit, magnitude, positive,
  from_chars, after_last, parse_device_index, after_last-join,
}

-- The decimal digits before those of `acc`, at most `fuel` and one.
unfoldable pub decimal : ℕ → ℕ → Str → Str
decimal zero n acc = (48 + n % 10) ∷ acc
decimal (suc fuel) n acc =
    let more = decimal fuel (n / 10) ((48 + n % 10) ∷ acc) in
    if ltb n 10 then (48 + n) ∷ acc else more

-- Twenty digits are enough for 64 bits.
unfoldable pub to_decimal : ℕ → Str
to_decimal n = decimal 19 n []

value-digit : (v d : ℕ) (acc : Str) → d < 10 → value v ((48 + d) ∷ acc) ≡ value (v * 10 + d) acc
unfolding value is_digit
value-digit v d acc h = ground (arith, h)

value_zero-digit : (d : ℕ) (acc : Str) → d < 10 → value 0 ((48 + d) ∷ acc) ≡ value d acc
value_zero-digit d acc h =
    value-digit 0 d acc h ∙ ap (λ (v : ℕ). value v acc) (let e : 0 * 10 + d ≡ d = omega arith in e)

value_last-digit : (n : ℕ) (acc : Str) → value (n / 10) ((48 + n % 10) ∷ acc) ≡ value n acc
value_last-digit n acc =
    value-digit (n / 10) (n % 10) acc (omega arith)
    ∙ ap (λ (v : ℕ). value v acc) (let e : n / 10 * 10 + n % 10 ≡ n = omega arith in e)

-- Whatever holds of both branches holds of the next digits.
decimal-cases :
    (P : Str → Type 0) (fuel n : ℕ) (acc : Str)
    → (n < 10 → P ((48 + n) ∷ acc))
    → P (decimal fuel (n / 10) ((48 + n % 10) ∷ acc))
    → P (decimal (suc fuel) n acc)
unfolding decimal
decimal-cases P fuel n acc last more = ground arith

-- Read from the front, the digits give the number back.
value-decimal :
    (fuel n : ℕ) (acc : Str) → n < 10 ^ suc fuel → value 0 (decimal fuel n acc) ≡ value n acc
unfolding decimal
value-decimal zero n acc h =
    value_zero-digit (n % 10) acc (omega arith)
    ∙ ap (λ (v : ℕ). value v acc) (let e : n % 10 ≡ n = omega (arith, h) in e)
value-decimal (suc fuel) n acc h =
    let q : n < 10 * 10 ^ suc fuel = subst (λ (m : ℕ). n < m) (pow-succ' 10 (suc fuel)) h in
    decimal-cases (λ s. value 0 s ≡ value n acc) fuel n acc (value_zero-digit n acc)
      (value-decimal fuel (n / 10) ((48 + n % 10) ∷ acc) (omega (arith, q))
        ∙ value_last-digit n acc)

starts_with_digit-decimal : (fuel n : ℕ) (acc : Str) → starts_with_digit (decimal fuel n acc) ≡ true
unfolding decimal starts_with_digit is_digit
starts_with_digit-decimal zero n acc = ground arith
starts_with_digit-decimal (suc fuel) n acc =
    decimal-cases (λ s. starts_with_digit s ≡ true) fuel n acc (λ h. ground (arith, h))
      (starts_with_digit-decimal fuel (n / 10) ((48 + n % 10) ∷ acc))

after_last-digit :
    (d : ℕ) (acc : Str) → d < 10 → after_last acc ≡ none → after_last ((48 + d) ∷ acc) ≡ none
unfolding after_last or_else
after_last-digit d acc h e = ground (arith, h, e)

after_last-decimal :
    (fuel n : ℕ) (acc : Str) → after_last acc ≡ none → after_last (decimal fuel n acc) ≡ none
unfolding decimal
after_last-decimal zero n acc e = after_last-digit (n % 10) acc (omega arith) e
after_last-decimal (suc fuel) n acc e =
    decimal-cases (λ s. after_last s ≡ none) fuel n acc (λ h. after_last-digit n acc h e)
      (after_last-decimal fuel (n / 10) ((48 + n % 10) ∷ acc)
        (after_last-digit (n % 10) acc (omega arith) e))

pub value-to_decimal : (n : ℕ) → n < 2 ^ 64 → value 0 (to_decimal n) ≡ n
unfolding to_decimal value
value-to_decimal n h = value-decimal 19 n [] (omega (arith, h))

pub starts_with_digit-to_decimal : (n : ℕ) → starts_with_digit (to_decimal n) ≡ true
unfolding to_decimal
starts_with_digit-to_decimal n = starts_with_digit-decimal 19 n []

-- Two numbers that are printed alike are the same.
pub to_decimal-injective : (m n : ℕ) → m < 2 ^ 64 → n < 2 ^ 64 → to_decimal m ≡ to_decimal n → m ≡ n
to_decimal-injective m n h k e = sym (value-to_decimal m h) ∙ ap (value 0) e ∙ value-to_decimal n k

from_chars-digits :
    (s : Str)
    → starts_with_digit s ≡ true
    → value 0 s ≤ 2_147_483_647
    → from_chars s ≡ some (pos (value 0 s))
unfolding from_chars magnitude positive starts_with_digit is_digit
from_chars-digits [] e h = absurd cc
from_chars-digits (c ∷ cs) e h = ground (arith, e, h)

-- The index that a device id carries, any int that is not negative, is read back, whatever the type
-- before the slash is.
pub parse_device_index-to_decimal :
    (ty : Str) (n : ℕ) → n < 2 ^ 31 → parse_device_index (ty ++ slash ∷ to_decimal n) ≡ pos n
unfolding parse_device_index index_of or_minus_one
parse_device_index-to_decimal ty n h =
    ap index_of (
      after_last-join ty (to_decimal n)
        (unfold to_decimal in after_last-decimal 19 n [] (unfold after_last in refl)))
    ∙ ap or_minus_one (
        from_chars-digits (to_decimal n) (starts_with_digit-to_decimal n)
          (omega (arith, value-to_decimal n (omega arith)))
        ∙ ap (λ (m : ℕ). some (pos m)) (value-to_decimal n (omega (arith, h))))
