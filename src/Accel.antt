-- ===== src/Accel.antt =====
-- The accel HWIP: the dispatch of hwip/accel/hw-model/src/accel_hw_model.cpp, and the opcode maps
-- that are generated into hwip/accel/gen/rpc/accel.hpp and the firmware's dispatch.h.
use deepspan.Common.{ℕ, ◌≡◌, ◌↔◌, Bool, true, false, ◌==◌, ◌||◌, if◌then◌else◌, some, arith}
use deepspan.HwModel.{Reply, CmdHandler}

abbrev pub op_echo : ℕ
op_echo = 1

abbrev pub op_process : ℕ
op_process = 2

abbrev pub op_status : ℕ
op_status = 3

-- The return value is 0, or -1 as a uint32_t.
unfoldable pub dispatch : ℕ → ℕ → ℕ → Reply
dispatch opcode arg0 arg1 =
    if opcode == op_echo
    then record { status = 0; data0 = arg0; data1 = arg1 }
    else (if opcode == op_status
        then record { status = 0; data0 = 1; data1 = 0 }
        else (if opcode == op_process
            then record { status = 0; data0 = 0; data1 = 0 }
            else record { status = 0xffff_ffff; data0 = 0; data1 = 0 }))

unfoldable pub accel_handler : CmdHandler
accel_handler dma opcode arg0 arg1 = some (dispatch opcode arg0 arg1)

-- proto_op_to_hw_op; `false` with opcode 0 for an unknown value.
pub proto_op_to_hw_op : ℕ → ℕ × Bool
proto_op_to_hw_op proto_op =
    if proto_op == 1
    then (op_echo, true)
    else (if proto_op == 2
        then (op_process, true)
        else (if proto_op == 3 then (op_status, true) else (0, false)))

unfoldable pub validate_opcode : ℕ → Bool
validate_opcode op = op == op_echo || (op == op_process || op == op_status)

-- deepspan_accel_is_valid_op of the firmware.
pub is_valid_op : ℕ → Bool
is_valid_op op =
    if op == op_echo
    then true
    else (if op == op_process then true else (if op == op_status then true else false))

-- The opcodes that the hw-model serves with status 0 are those that the server's validation
-- accepts, those that the firmware's validation accepts, and those that the mapping from the
-- proto enum reaches.
pub opcodes_agree :
    (op : ℕ)
    → ((validate_opcode op ≡ true) ↔ ((dispatch op 0 0).status ≡ 0))
      × (is_valid_op op ≡ validate_opcode op)
      × ((validate_opcode op ≡ true) ↔ (proto_op_to_hw_op op ≡ (op, true)))
unfolding validate_opcode dispatch is_valid_op proto_op_to_hw_op
opcodes_agree op = ground arith
