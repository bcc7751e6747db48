-- ===== src/Server/DeviceIndex.antt =====
-- parse_device_index of mgmt_service.cpp and telemetry_service.cpp in server/src, and parse_index
-- of the plugins, which are the same: what follows the last slash, read by std::from_chars.
use deepspan.Common.{
  ℕ, zero, suc, ◌+◌, ◌-◌, ◌*◌, ◌/◌, ◌%◌, ◌<◌, ◌≡◌, refl, ap, ◌∙◌, Bool, true, false, if◌then◌else◌,
  ltb, ltb→lt, leb, ◌==◌, Option, none, some, [], ◌∷◌, ◌++◌, arith,
}
use deepspan.Server.StrMap.{Str}
use deepspan.Server.Registry.{ℤ, pos, negsuc, to_string, slash, dev_id}

unfoldable pub or_else : Option Str → Option Str → Option Str
or_else none d = d
or_else (some s) d = some s

-- rfind('/') and substr.
unfoldable pub after_last : Str → Option Str
after_last [] = none
after_last (c ∷ cs) = or_else (after_last cs) (if c == slash then some cs else none)

unfoldable pub is_digit : ℕ → Bool
is_digit c = if ltb c 48 then false else ltb c 58

-- The digits at the front, as a number, after `acc`.
unfoldable pub value : ℕ → Str → ℕ
value acc [] = acc
value acc (c ∷ cs) = let rest = value (acc * 10 + (c - 48)) cs in if is_digit c then rest else acc

unfoldable pub starts_with_digit : Str → Bool
starts_with_digit [] = false
starts_with_digit (c ∷ cs) = is_digit c

-- An int's magnitude that does not fit is an error, as no digit at all is.
unfoldable pub magnitude : Str → ℕ → Option ℕ
magnitude s bound =
    if starts_with_digit s then (if leb (value 0 s) bound then some (value 0 s) else none) else none

unfoldable pub negated : Option ℕ → Option ℤ
negated none = none
negated (some zero) = some (pos 0)
negated (some (suc n)) = some (negsuc n)

unfoldable pub positive : Option ℕ → Option ℤ
positive none = none
positive (some n) = some (pos n)

-- std::from_chars to an int: a minus sign, digits, and whatever follows them.
unfoldable pub from_chars : Str → Option ℤ
from_chars [] = none
from_chars (c ∷ cs) =
    if c == 45
    then negated (magnitude cs 2_147_483_648)
    else positive (magnitude (c ∷ cs) 2_147_483_647)

unfoldable pub or_minus_one : Option ℤ → ℤ
or_minus_one none = negsuc 0
or_minus_one (some i) = i

unfoldable pub index_of : Option Str → ℤ
index_of none = negsuc 0
index_of (some s) = or_minus_one (from_chars s)

unfoldable pub parse_device_index : Str → ℤ
parse_device_index id = index_of (after_last id)

-- No digit is a slash.
after_last-to_string : (n : ℕ) → after_last (to_string n) ≡ none
unfolding after_last to_string or_else
after_last-to_string n = ground arith

pub after_last-join :
    (ty index : Str) → after_last index ≡ none → after_last (ty ++ slash ∷ index) ≡ some index
unfolding after_last or_else
after_last-join [] index h = ground (arith, h)
after_last-join (c ∷ cs) index h = ground (arith, after_last-join cs index h)

from_chars_digit : (d : ℕ) → d < 10 → from_chars ((48 + d) ∷ []) ≡ some (pos d)
unfolding from_chars magnitude starts_with_digit value is_digit positive
from_chars_digit d h = ground (arith, h)

from_chars_digits :
    (d e : ℕ) → d < 10 → e < 10 → from_chars ((48 + d) ∷ (48 + e) ∷ []) ≡ some (pos (d * 10 + e))
unfolding from_chars magnitude starts_with_digit value is_digit positive
from_chars_digits d e h k = ground (arith, h, k)

from_chars_if :
    (n : ℕ) (b : Bool)
    → n < 100
    → ltb n 10 ≡ b
    → from_chars (if b then (48 + n) ∷ [] else (48 + n / 10) ∷ (48 + n % 10) ∷ []) ≡ some (pos n)
from_chars_if n true h e = from_chars_digit n (ltb→lt n 10 e)
from_chars_if n false h e =
    from_chars_digits (n / 10) (n % 10) (omega (arith, h)) (omega arith)
    ∙ ap (λ (m : ℕ). some (pos m)) (omega arith)

from_chars-to_string : (n : ℕ) → n < 100 → from_chars (to_string n) ≡ some (pos n)
unfolding to_string
from_chars-to_string n h = from_chars_if n (ltb n 10) h refl

-- The index in a device id that the registry builds is read back, whatever its type is.
pub parse_device_index-dev_id :
    (ty : Str) (n : ℕ) → n < 100 → parse_device_index (dev_id ty n) ≡ pos n
unfolding parse_device_index dev_id index_of or_minus_one
parse_device_index-dev_id ty n h =
    ap index_of (after_last-join ty (to_string n) (after_last-to_string n))
    ∙ ap or_minus_one (from_chars-to_string n h)
