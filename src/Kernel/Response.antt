-- ===== src/Kernel/Response.antt =====
-- The response slot: what the firmware stores there, io_uring_cmd_done is given.
use deepspan.Common.{
  ℕ, ◌+◌, ◌*◌, ◌-◌, ◌^◌, ◌<◌, ◌≡◌, ap, ap₂, ◌∙◌, bit_or, List, ◌++◌, take, drop, arith,
}
use deepspan.Common.Bits.{or_comm, or_disjoint}
use deepspan.Common.Bytes.{le32, le_value, le_value-le32}
use deepspan.Userlib.AsyncClient.{ℤ, pos, negsuc}
use deepspan.Kernel.Request.{Request}
use deepspan.Kernel.Vqueue.{s32, completion}

-- struct deepspan_result as it lies in memory.
unfoldable pub result_bytes : ℕ → ℕ → ℕ → List ℕ
result_bytes status lo hi = le32 status ++ (le32 lo ++ (le32 hi ++ le32 0))

-- The 32 bits of an int.
unfoldable pub u32 : ℤ → ℕ
u32 (pos n) = n
u32 (negsuc n) = 2 ^ 32 - 1 - n

-- The values of a 32-bit int.
unfoldable pub IsInt32 : ℤ → Type 0
IsInt32 (pos n) = n < 2 ^ 31
IsInt32 (negsuc n) = n < 2 ^ 31

u32-lt : (z : ℤ) → IsInt32 z → u32 z < 2 ^ 32
unfolding u32 IsInt32
u32-lt (pos n) h = omega arith
u32-lt (negsuc n) h = omega arith

s32-u32 : (z : ℤ) → IsInt32 z → s32 (u32 z) ≡ z
unfolding u32 IsInt32 s32
s32-u32 (pos n) h = ground arith
s32-u32 (negsuc n) h =
    let back : 2 ^ 32 - 1 - (2 ^ 32 - 1 - n) ≡ n = omega arith in ground (arith, back)

words :
    (status lo hi : ℕ)
    → status < 2 ^ 32
    → lo < 2 ^ 32
    → hi < 2 ^ 32
    → let bytes = result_bytes status lo hi in
      (le_value (take 4 bytes) ≡ status)
      × (bit_or (le_value (take 4 (drop 4 bytes))) (le_value (take 4 (drop 8 bytes)) * 2 ^ 32)
          ≡ hi * 2 ^ 32 + lo)
unfolding result_bytes le32
words status lo hi s l h = (
  le_value-le32 status s,
  ap₂ (λ (x y : ℕ). bit_or x (y * 2 ^ 32)) (le_value-le32 lo l) (le_value-le32 hi h)
      ∙ or_comm lo (hi * 2 ^ 32)
      ∙ or_disjoint 32 hi lo l,
)

-- The status and the two words that the firmware stores in the 16 bytes of the slot are those that
-- io_uring_cmd_done is given, a negative status included.
pub completion-result_bytes :
    (r : Request) (status : ℤ) (lo hi : ℕ)
    → IsInt32 status
    → lo < 2 ^ 32
    → hi < 2 ^ 32
    → r.resp_buf ≡ result_bytes (u32 status) lo hi
    → r.resp_len ≡ 16
    → completion r ≡ record { cmd = r.cmd; status = status; res2 = hi * 2 ^ 32 + lo }
unfolding completion
completion-result_bytes r status lo hi i l h e len =
    let (low, both) = words (u32 status) lo hi (u32-lt status i) l h in
    rw (len, e)
      (ap₂ (λ (z : ℤ) (w : ℕ). record { cmd = r.cmd; status = z; res2 = w })
        (ap s32 low ∙ s32-u32 status i) both)
