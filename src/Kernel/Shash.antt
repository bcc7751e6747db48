-- ===== src/Kernel/Shash.antt =====
-- kernel/drivers/deepspan/deepspan_crc32_shash.c: the CRC-32 that the driver gives to the crypto
-- API. `crc32` of <linux/crc32.h> is a parameter.
use deepspan.Common.{
  ℕ, ◌≡◌, refl, sym, ap, ◌∙◌, bit_xor, arith, some, List, [], ◌∷◌, ◌++◌, length, take-length,
}
use mathlib.Core.Option
use mathlib.Core.List.{append_assoc}
use deepspan.Common.Bytes.{IsBytes, IsBytes-split, le32}
use deepspan.Crc32.{rounds, all_ones, compute_crc32}
use deepspan.Crc32.Serial.{
  feed_all, feed_all-append, bits, message_bits, serial_crc32, rounds-feed_all,
  compute_crc32-serial,
}

-- struct deepspan_crc32_ctx.
pub record Ctx : Type 0 where
  pub crc : ℕ

-- DEEPSPAN_CRC32_DIGESTSIZE
abbrev pub digestsize : ℕ
digestsize = 4

unfoldable pub init : Ctx → Ctx
init ctx = record ctx { crc = all_ones }

unfoldable pub final : Ctx → List ℕ
final ctx = le32 (bit_xor ctx.crc all_ones)

module _ (crc32 : ℕ → List ℕ → ℕ) where
  unfoldable pub update : Ctx → List ℕ → Ctx
  update ctx bytes = record ctx { crc = crc32 ctx.crc bytes }

  unfoldable pub finup : Ctx → List ℕ → List ℕ
  finup ctx bytes = final (update ctx bytes)

  unfoldable pub digest : Ctx → List ℕ → List ℕ
  digest ctx bytes = finup (init ctx) bytes

  -- The crypto API calls `update` once for each piece of the message.
  unfoldable pub updates : Ctx → List (List ℕ) → Ctx
  updates ctx [] = ctx
  updates ctx (bytes ∷ rest) = updates (update ctx bytes) rest

unfoldable pub joined : List (List ℕ) → List ℕ
joined [] = []
joined (bytes ∷ rest) = bytes ++ joined rest

message_bits-append :
    (xs ys : List ℕ) → message_bits (xs ++ ys) ≡ message_bits xs ++ message_bits ys
unfolding message_bits
message_bits-append [] ys = refl
message_bits-append (x ∷ xs) ys =
    ap (λ t. bits 8 x ++ t) (message_bits-append xs ys)
    ∙ sym (append_assoc (bits 8 x) (message_bits xs) (message_bits ys))

module _ (crc32 : ℕ → List ℕ → ℕ) (crc32-nil : (c : ℕ) → crc32 c [] ≡ c)
    (crc32-cons : (c b : ℕ) (bs : List ℕ)
      → crc32 c (b ∷ bs) ≡ crc32 (rounds 8 (bit_xor c b)) bs) where
  crc32-feed_all :
      (bytes : List ℕ) (c : ℕ) → IsBytes bytes → crc32 c bytes ≡ feed_all c (message_bits bytes)
  unfolding message_bits feed_all
  crc32-feed_all [] c v = crc32-nil c
  crc32-feed_all (b ∷ bs) c v =
      crc32-cons c b bs
      ∙ ap (λ t. crc32 t bs) (rounds-feed_all 8 c b v.0)
      ∙ crc32-feed_all bs (feed_all c (bits 8 b)) v.1
      ∙ sym (feed_all-append (bits 8 b) (message_bits bs) c)

  -- The pieces that `updates` takes have the bits of the joined message.
  updates-feed_all :
      (pieces : List (List ℕ)) (ctx : Ctx)
      → IsBytes (joined pieces)
      → (updates crc32 ctx pieces).crc ≡ feed_all ctx.crc (message_bits (joined pieces))
  unfolding updates update joined message_bits feed_all
  updates-feed_all [] ctx v = refl
  updates-feed_all (bytes ∷ rest) ctx v =
      let parts = IsBytes-split bytes (joined rest) v in
      updates-feed_all rest (update crc32 ctx bytes) parts.1
      ∙ ap (λ c. feed_all c (message_bits (joined rest))) (crc32-feed_all bytes ctx.crc parts.0)
      ∙ sym (feed_all-append (message_bits bytes) (message_bits (joined rest)) ctx.crc)
      ∙ ap (feed_all ctx.crc) (sym (message_bits-append bytes (joined rest)))

  -- Whatever the context held and however the message is cut, init, updates and final write the
  -- four little-endian bytes of its serial CRC-32, as the one call of digest does.
  pub updates-serial_crc32 :
      (pieces : List (List ℕ)) (ctx : Ctx)
      → IsBytes (joined pieces)
      → (final (updates crc32 (init ctx) pieces) ≡ le32 (serial_crc32 (joined pieces)))
        × (digest crc32 ctx (joined pieces) ≡ le32 (serial_crc32 (joined pieces)))
        × (length (digest crc32 ctx (joined pieces)) ≡ digestsize)
  unfolding final init digest finup update serial_crc32 le32
  updates-serial_crc32 pieces ctx v = (
    ap (λ c. le32 (bit_xor c all_ones)) (updates-feed_all pieces (init ctx) v),
    ap (λ c. le32 (bit_xor c all_ones)) (crc32-feed_all (joined pieces) all_ones v),
    refl,
  )

  -- The digest of a message, read as a number, is what the hw-model's compute_crc32 returns.
  pub digest-compute_crc32 :
      (bytes : List ℕ) (ctx : Ctx)
      → IsBytes bytes
      → Option.map le32 (compute_crc32 bytes (length bytes)) ≡ some (digest crc32 ctx bytes)
  unfolding final init digest finup update serial_crc32
  digest-compute_crc32 bytes ctx v =
      ap (Option.map le32) (compute_crc32-serial bytes (length bytes) v (omega arith))
      ∙ ap (λ t. some (le32 (serial_crc32 t))) (take-length bytes)
      ∙ ap (λ c. some (le32 (bit_xor c all_ones))) (sym (crc32-feed_all bytes all_ones v))
