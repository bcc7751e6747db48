-- ===== src/Crc32/Opcodes.antt =====
-- The opcode maps that are generated for the crc32 HWIP: hwip/crc32/gen/rpc/crc32.hpp and
-- the firmware's hwip/crc32/gen/firmware/deepspan_crc32/dispatch.h.
use deepspan.Common.{ℕ, ◌≡◌, ◌↔◌, Bool, true, false, ◌==◌, ◌||◌, if◌then◌else◌, some, List, arith}
use deepspan.Crc32.{rc_zero, Dispatched, op_compute, op_get_poly, dispatch, dispatch_compute}
use mathlib.Core.Option

-- proto_op_to_hw_op; `false` with opcode 0 for an unknown value.
unfoldable pub proto_op_to_hw_op : ℕ → ℕ × Bool
proto_op_to_hw_op proto_op =
    if proto_op == 1
    then (op_compute, true)
    else (if proto_op == 2 then (op_get_poly, true) else (0, false))

unfoldable pub validate_opcode : ℕ → Bool
validate_opcode op = op == op_compute || op == op_get_poly

-- deepspan_crc32_is_valid_op of the firmware.
unfoldable pub is_valid_op : ℕ → Bool
is_valid_op op = if op == op_compute then true else (if op == op_get_poly then true else false)

-- With a page, and no byte to read, the hw-model's dispatch returns 0 for exactly the opcodes that
-- the server's validation accepts; these are those that the firmware's accepts and that the
-- mapping from the proto enum reaches.
pub crc32_opcodes_agree :
    (dma : List ℕ) (op arg1 : ℕ)
    → ((validate_opcode op ≡ true)
        ↔ (Option.map (λ (d : Dispatched). d.rc) (dispatch (some dma) op 0 arg1) ≡ some rc_zero))
      × (is_valid_op op ≡ validate_opcode op)
      × ((validate_opcode op ≡ true) ↔ (proto_op_to_hw_op op ≡ (op, true)))
unfolding validate_opcode dispatch dispatch_compute is_valid_op proto_op_to_hw_op
crc32_opcodes_agree dma op arg1 = ground arith
