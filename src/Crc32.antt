-- ===== src/Crc32.antt =====
-- hwip/crc32/hw-model/src/crc32_hw_model.cpp: the CRC-32 of the hw-model and its opcode dispatch.
pub mod Base
pub mod Linear
pub mod Opcodes
pub mod Serial
pub mod Detect
pub mod Handler
use deepspan.Common.{
  ℕ, zero, suc, ◌+◌, ◌/◌, ◌^◌, Bool, true, false, ◌==◌, if◌then◌else◌, Option, none, some, List, [],
  ◌∷◌, bit_and, bit_xor, get_or,
}
use mathlib.Core.Option

abbrev pub poly : ℕ
poly = 0xedb8_8320

-- c = (c & 1) ? (0xEDB88320 ^ (c >> 1)) : (c >> 1)
pub round : ℕ → ℕ
round c = if bit_and c 1 == 0 then c / 2 else bit_xor poly (c / 2)

pub rounds : ℕ → ℕ → ℕ
rounds zero c = c
rounds (suc j) c = rounds j (round c)

-- The loop that fills `table[i..i + left)`.
pub make_table : ℕ → ℕ → List ℕ
make_table zero i = []
make_table (suc left) i = rounds 8 i ∷ make_table left (i + 1)

pub table : List ℕ
table = make_table 256 0

-- table[(crc ^ data[i]) & 0xFF] ^ (crc >> 8)
pub update : ℕ → ℕ → ℕ
update crc b = bit_xor (get_or table (bit_and (bit_xor crc b) 0xff) 0) (crc / 2 ^ 8)

-- The loop over `len` bytes; `none` is a read past the bytes that are there.
pub crc_loop : ℕ → ℕ → List ℕ → Option ℕ
crc_loop zero crc bytes = some crc
crc_loop (suc len) crc [] = none
crc_loop (suc len) crc (b ∷ rest) = crc_loop len (update crc b) rest

abbrev pub all_ones : ℕ
all_ones = 0xffff_ffff

pub compute_crc32 : List ℕ → ℕ → Option ℕ
compute_crc32 bytes len = Option.map (λ crc. bit_xor crc all_ones) (crc_loop len all_ones bytes)

-- What `deepspan_crc32_dispatch` returns, 0 or -1, and stores to `*r0` and `*r1`.
pub data Rc : Type 0 where
  rc_zero rc_minus_one : Rc

pub record Dispatched : Type 0 where
  pub rc : Rc
  pub r0 : ℕ
  pub r1 : ℕ

abbrev pub op_compute : ℕ
op_compute = 1

abbrev pub op_get_poly : ℕ
op_get_poly = 2

-- case COMPUTE: `base` is what `g_shm_base` gives from the DMA offset on, `none` while it is null.
pub dispatch_compute : Option (List ℕ) → ℕ → Option Dispatched
dispatch_compute none len = some (record { rc = rc_minus_one; r0 = 0; r1 = 0 })
dispatch_compute (some dma) len =
    if len == 0
    then some (record { rc = rc_zero; r0 = 0; r1 = 0 })
    else Option.map (λ crc. record { rc = rc_zero; r0 = crc; r1 = 0 }) (compute_crc32 dma len)

-- `none` is a read outside the page.
pub dispatch : Option (List ℕ) → ℕ → ℕ → ℕ → Option Dispatched
dispatch base opcode arg0 arg1 =
    if opcode == op_compute
    then dispatch_compute base arg0
    else (if opcode == op_get_poly
        then some (record { rc = rc_zero; r0 = poly; r1 = 0 })
        else some (record { rc = rc_minus_one; r0 = 0; r1 = 0 }))
