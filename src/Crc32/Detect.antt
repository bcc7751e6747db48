-- ===== src/Crc32/Detect.antt =====
-- What the polynomial is for: a message in which one byte was changed has another CRC-32.
use deepspan.Common.{
  ℕ, zero, suc, ◌+◌, ◌*◌, ◌/◌, ◌^◌, ◌<◌, ◌≤◌, ◌≡◌, ◌≢◌, refl, sym, ap, ◌∙◌, bit_xor, arith, Option,
  none, some, List, [], ◌∷◌, ◌++◌, length,
}
use mathlib.Core.Option
use deepspan.Common.Bytes.{IsBytes}
use deepspan.Common.Bits.{xor_assoc, xor_comm, xor_self, zero-xor, xor-lt, and_one}
use deepspan.Crc32.{poly, round, rounds, update, crc_loop, all_ones, compute_crc32}
use deepspan.Crc32.Linear.{xor_fields, update-rounds}

xor_cancel : (p a b : ℕ) → bit_xor p a ≡ bit_xor p b → a ≡ b
xor_cancel p a b e = sym (undo a) ∙ ap (bit_xor p) e ∙ undo b
  where
    undo : (x : ℕ) → bit_xor p (bit_xor p x) ≡ x
    undo x = sym (xor_assoc p p x) ∙ ap (λ (t : ℕ). bit_xor t x) (xor_self p) ∙ zero-xor x

-- The polynomial has the top bit, so a round shows in its result which way it went.
poly_top : (y : ℕ) → y < 2 ^ 31 → bit_xor poly y ≡ 2 ^ 31 + bit_xor 0x6db8_8320 y
poly_top y h =
    xor_assoc (1 * 2 ^ 31) 0x6db8_8320 y
    ∙ xor_fields 31 1 (bit_xor 0x6db8_8320 y) (xor-lt 31 0x6db8_8320 y (omega arith) h)

round-lt : (c : ℕ) → c < 2 ^ 32 → round c < 2 ^ 32
unfolding round
round-lt c h = ground (arith, xor-lt 32 poly (c / 2))

round_inj : (c d : ℕ) → c < 2 ^ 32 → d < 2 ^ 32 → round c ≡ round d → c ≡ d
unfolding round
round_inj c d hc hd e = ground (
  arith,
  and_one c,
  and_one d,
  poly_top (c / 2),
  poly_top (d / 2),
  xor_cancel poly (c / 2) (d / 2),
)

rounds-lt : (k c : ℕ) → c < 2 ^ 32 → rounds k c < 2 ^ 32
unfolding rounds
rounds-lt zero c h = h
rounds-lt (suc k) c h = rounds-lt k (round c) (round-lt c h)

rounds_inj : (k c d : ℕ) → c < 2 ^ 32 → d < 2 ^ 32 → rounds k c ≡ rounds k d → c ≡ d
unfolding rounds
rounds_inj zero c d hc hd e = e
rounds_inj (suc k) c d hc hd e =
    round_inj c d hc hd (rounds_inj k (round c) (round d) (round-lt c hc) (round-lt d hd) e)

update-lt : (c b : ℕ) → c < 2 ^ 32 → b < 256 → update c b < 2 ^ 32
update-lt c b hc hb =
    rw (update-rounds c b hb) (rounds-lt 8 (bit_xor c b) (xor-lt 32 c b hc (omega arith)))

update_inj :
    (c d a b : ℕ)
    → c < 2 ^ 32
    → d < 2 ^ 32
    → a < 256
    → b < 256
    → update c a ≡ update d b
    → bit_xor c a ≡ bit_xor d b
update_inj c d a b hc hd ha hb e =
    rounds_inj 8 (bit_xor c a) (bit_xor d b) (xor-lt 32 c a hc (omega arith))
      (xor-lt 32 d b hd (omega arith)) (sym (update-rounds c a ha) ∙ e ∙ update-rounds d b hb)

xor_cancel_right : (p a b : ℕ) → bit_xor a p ≡ bit_xor b p → a ≡ b
xor_cancel_right p a b e = xor_cancel p a b (xor_comm p a ∙ e ∙ xor_comm b p)

-- The bytes that follow keep two registers apart.
crc_loop_inj :
    (len c d : ℕ) (bytes : List ℕ)
    → c < 2 ^ 32
    → d < 2 ^ 32
    → IsBytes bytes
    → len ≤ length bytes
    → crc_loop len c bytes ≡ crc_loop len d bytes
    → c ≡ d
unfolding crc_loop
crc_loop_inj zero c d bytes hc hd v h e = cc
crc_loop_inj (suc len) c d [] hc hd v h e = absurd (omega arith)
crc_loop_inj (suc len) c d (b ∷ bytes) hc hd v h e = xor_cancel_right b c d (
    update_inj c d b b hc hd v.0 v.0 (
      crc_loop_inj len (update c b) (update d b) bytes (update-lt c b hc v.0) (update-lt d b hd v.0)
        v.1 (omega arith) e))

crc_loop_detects :
    (xs ys : List ℕ) (a b len c : ℕ)
    → c < 2 ^ 32
    → IsBytes (xs ++ a ∷ ys)
    → IsBytes (xs ++ b ∷ ys)
    → length xs < len
    → len ≤ length (xs ++ a ∷ ys)
    → crc_loop len c (xs ++ a ∷ ys) ≡ crc_loop len c (xs ++ b ∷ ys)
    → a ≡ b
unfolding crc_loop
crc_loop_detects [] ys a b zero c hc va vb h k e = absurd (omega arith)
crc_loop_detects [] ys a b (suc len) c hc va vb h k e = xor_cancel c a b (
    update_inj c c a b hc hc va.0 vb.0 (
      crc_loop_inj len (update c a) (update c b) ys (update-lt c a hc va.0) (update-lt c b hc vb.0)
        va.1 (omega arith) e))
crc_loop_detects (x ∷ xs) ys a b zero c hc va vb h k e = absurd (omega arith)
crc_loop_detects (x ∷ xs) ys a b (suc len) c hc va vb h k e =
    crc_loop_detects xs ys a b len (update c x) (update-lt c x hc va.0) va.1 vb.1 (omega arith)
      (omega arith) e

invert_inj :
    (o p : Option ℕ)
    → Option.map (λ crc. bit_xor crc all_ones) o ≡ Option.map (λ crc. bit_xor crc all_ones) p
    → o ≡ p
invert_inj none none e = refl
invert_inj none (some d) e = cc
invert_inj (some c) none e = cc
invert_inj (some c) (some d) e = ap some (xor_cancel_right all_ones c d (ground arith))

-- Two messages that differ in exactly one of the bytes read have different checksums.
pub compute_crc32-detects :
    (xs ys : List ℕ) (a b len : ℕ)
    → IsBytes (xs ++ a ∷ ys)
    → IsBytes (xs ++ b ∷ ys)
    → length xs < len
    → len ≤ length (xs ++ a ∷ ys)
    → a ≢ b
    → compute_crc32 (xs ++ a ∷ ys) len ≢ compute_crc32 (xs ++ b ∷ ys) len
unfolding compute_crc32
compute_crc32-detects xs ys a b len va vb h k ne e = ne (
    crc_loop_detects xs ys a b len all_ones (omega arith) va vb h k
      (invert_inj (crc_loop len all_ones (xs ++ a ∷ ys)) (crc_loop len all_ones (xs ++ b ∷ ys)) e))
