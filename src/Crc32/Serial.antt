-- ===== src/Crc32/Serial.antt =====
-- The specification: a shift register that is fed the bits of the message one by one, the low bit
-- of each byte first, and the theorem that `compute_crc32` computes it.
use deepspan.Common.{
  ℕ, zero, suc, ◌+◌, ◌/◌, ◌%◌, ◌^◌, ◌<◌, ◌≤◌, ◌≡◌, refl, sym, ap, ◌∙◌, bit_xor, arith, ◌==◌,
  if◌then◌else◌, some, List, [], ◌∷◌, ◌++◌, length, take,
}
use deepspan.Common.Bytes.{IsBytes}
use deepspan.Common.Bits.{xor_half, xor_odd, xor_assoc, xor-zero, and_one}
use native.Mathlib.Nat.{pow-suc}
use deepspan.Crc32.{poly, round, rounds, crc_loop, all_ones, compute_crc32}
use deepspan.Crc32.Linear.{update-rounds}

-- The register shifts right; the polynomial is subtracted if the bit that leaves differs from the
-- bit that comes in.
pub feed : ℕ → ℕ → ℕ
feed c m = if (c + m) % 2 == 0 then c / 2 else bit_xor poly (c / 2)

unfoldable pub feed_all : ℕ → List ℕ → ℕ
feed_all c [] = c
feed_all c (m ∷ ms) = feed_all (feed c m) ms

-- The `k` low bits of a number, lowest first.
pub bits : ℕ → ℕ → List ℕ
bits zero b = []
bits (suc k) b = b % 2 ∷ bits k (b / 2)

unfoldable pub message_bits : List ℕ → List ℕ
message_bits [] = []
message_bits (b ∷ bs) = bits 8 b ++ message_bits bs

unfoldable pub serial_crc32 : List ℕ → ℕ
serial_crc32 message = bit_xor (feed_all all_ones (message_bits message)) all_ones

pub feed_all-append : (ms ns : List ℕ) (c : ℕ) → feed_all c (ms ++ ns) ≡ feed_all (feed_all c ms) ns
unfolding feed_all
feed_all-append [] ns c = refl
feed_all-append (m ∷ ms) ns c = feed_all-append ms ns (feed c m)

round-xor : (c b : ℕ) → round (bit_xor c b) ≡ bit_xor (feed c (b % 2)) (b / 2)
unfolding round feed
round-xor c b =
    ground (arith, and_one (bit_xor c b), xor_odd c b, xor_half c b, xor_assoc poly (c / 2) (b / 2))

pub rounds-feed_all : (k c b : ℕ) → b < 2 ^ k → rounds k (bit_xor c b) ≡ feed_all c (bits k b)
unfolding rounds feed_all bits
rounds-feed_all zero c zero p = xor-zero c
rounds-feed_all zero c (suc b) p = absurd (omega arith)
rounds-feed_all (suc k) c b p =
    ap (rounds k) (round-xor c b)
    ∙ rounds-feed_all k (feed c (b % 2)) (b / 2) (omega (arith, pow-suc 2 k))

pub crc_loop-feed_all :
    (len c : ℕ) (bytes : List ℕ)
    → IsBytes bytes
    → len ≤ length bytes
    → crc_loop len c bytes ≡ some (feed_all c (message_bits (take len bytes)))
unfolding crc_loop message_bits feed_all
crc_loop-feed_all zero c bytes v h = refl
crc_loop-feed_all (suc len) c [] v h = absurd (omega arith)
crc_loop-feed_all (suc len) c (b ∷ bytes) v h =
    ap (λ (t : ℕ). crc_loop len t bytes) (update-rounds c b v.0 ∙ rounds-feed_all 8 c b v.0)
    ∙ crc_loop-feed_all len (feed_all c (bits 8 b)) bytes v.1 (omega arith)
    ∙ ap some (sym (feed_all-append (bits 8 b) (message_bits (take len bytes)) c))

-- The table-driven `compute_crc32` over `len` bytes that are there gives the serial CRC-32 of
-- those bytes.
pub compute_crc32-serial :
    (bytes : List ℕ) (len : ℕ)
    → IsBytes bytes
    → len ≤ length bytes
    → compute_crc32 bytes len ≡ some (serial_crc32 (take len bytes))
unfolding compute_crc32 serial_crc32
compute_crc32-serial bytes len v h = rw (crc_loop-feed_all len all_ones bytes v h)

pub serial_crc32-nil : serial_crc32 [] ≡ 0
unfolding serial_crc32 feed_all message_bits
serial_crc32-nil = refl
