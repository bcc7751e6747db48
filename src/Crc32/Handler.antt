-- ===== src/Crc32/Handler.antt =====
-- The dispatch as the command handler of the hw-model server, wired up as in
-- hwip/crc32/tests/test_crc32_e2e.cpp, and what it answers.
use deepspan.Common.{
  ℕ, zero, suc, ◌≤◌, ◌<◌, ◌≡◌, ◌≢◌, ◌↔◌, refl, [], ◌∷◌, none, some, List, length, take, arith,
}
use mathlib.Core.Option
use deepspan.Common.Bytes.{IsBytes}
use deepspan.HwModel.{Reply, CmdHandler}
use deepspan.Crc32.{
  Rc, rc_zero, rc_minus_one, Dispatched, op_compute, op_get_poly, poly, dispatch_compute, dispatch,
  compute_crc32, all_ones, crc_loop, update,
}
use deepspan.Crc32.Serial.{serial_crc32, compute_crc32-serial, serial_crc32-nil}

abbrev status_of : Rc → ℕ
status_of rc_zero = 0
status_of rc_minus_one = 1

abbrev reply_of : Dispatched → Reply
reply_of d = record { status = status_of d.rc; data0 = d.r0; data1 = d.r1 }

-- The server's page is the one that `deepspan_crc32_set_shm_base` was given.
unfoldable pub crc32_handler : CmdHandler
crc32_handler dma opcode arg0 arg1 = Option.map reply_of (dispatch (some dma) opcode arg0 arg1)

-- COMPUTE answers the serial CRC-32 of the first `len` bytes of the DMA area, for every length
-- that stays in the page, zero included.
pub crc32_handler-compute :
    (dma : List ℕ) (len arg1 : ℕ)
    → IsBytes dma
    → len ≤ length dma
    → crc32_handler dma op_compute len arg1
      ≡ some (record { status = 0; data0 = serial_crc32 (take len dma); data1 = 0 })
unfolding crc32_handler dispatch dispatch_compute
crc32_handler-compute dma zero arg1 v h = rw serial_crc32-nil
crc32_handler-compute dma (suc len) arg1 v h =
    ground (arith, compute_crc32-serial dma (suc len) v h)

crc_loop-none_iff :
    (len c : ℕ) (bytes : List ℕ) → (crc_loop len c bytes ≡ none) ↔ (length bytes < len)
unfolding crc_loop
crc_loop-none_iff zero c bytes = ground arith
crc_loop-none_iff (suc len) c [] = ground arith
crc_loop-none_iff (suc len) c (b ∷ bytes) = ground (arith, crc_loop-none_iff len (update c b) bytes)

-- A command makes the dispatch read outside the page exactly when it is COMPUTE with a length above
-- the number of DMA bytes there are: nothing else bounds the length register.
pub crc32_handler-none_iff :
    (dma : List ℕ) (opcode arg0 arg1 : ℕ)
    → (crc32_handler dma opcode arg0 arg1 ≡ none) ↔ ((opcode ≡ op_compute) × (length dma < arg0))
unfolding crc32_handler dispatch dispatch_compute compute_crc32
crc32_handler-none_iff dma opcode arg0 arg1 = ground (arith, crc_loop-none_iff arg0 all_ones dma)

-- Such a COMPUTE never answers.
pub crc32_handler-compute_beyond :
    (dma : List ℕ) (len arg1 : ℕ) → length dma < len → crc32_handler dma op_compute len arg1 ≡ none
crc32_handler-compute_beyond dma len arg1 h =
    ground (arith, crc32_handler-none_iff dma op_compute len arg1)

-- An opcode that is neither COMPUTE nor GET_POLY is answered with status 1 and zero data.
pub crc32_handler_unknown :
    (dma : List ℕ) (opcode arg0 arg1 : ℕ)
    → opcode ≢ op_compute
    → opcode ≢ op_get_poly
    → crc32_handler dma opcode arg0 arg1 ≡ some (record { status = 1; data0 = 0; data1 = 0 })
unfolding crc32_handler dispatch
crc32_handler_unknown dma opcode arg0 arg1 h k = ground arith

-- GET_POLY answers the polynomial, whatever the arguments are.
pub crc32_handler-get_poly :
    (dma : List ℕ) (arg0 arg1 : ℕ)
    → crc32_handler dma op_get_poly arg0 arg1
      ≡ some (record { status = 0; data0 = poly; data1 = 0 })
unfolding crc32_handler dispatch
crc32_handler-get_poly dma arg0 arg1 = refl
