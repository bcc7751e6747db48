-- ===== src/Shm/Layout.antt =====
-- The registers by their byte offsets, as every part of the program has them: the struct of
-- reg_map.hpp, the headers generated for each HWIP, and the macros of the firmware's two drivers and
-- the kernel's UAPI header.
use deepspan.Common.{
  ℕ, ◌+◌, ◌*◌, ◌≤◌, ◌≡◌, ◌≢◌, ◌⊎◌, refl, if◌then◌else◌, ◌==◌, Option, none, some, List, [], ◌∷◌,
  arith,
}

pub data Reg : Type 0 where
  ctrl status irq_status irq_enable version capabilities cmd_opcode cmd_arg0 cmd_arg1 cmd_flags
        result_status result_data0 result_data1 :
      Reg

unfoldable pub number : Reg → ℕ
number ctrl = 0
number status = 1
number irq_status = 2
number irq_enable = 3
number version = 4
number capabilities = 5
number cmd_opcode = 6
number cmd_arg0 = 7
number cmd_arg1 = 8
number cmd_flags = 9
number result_status = 10
number result_data0 = 11
number result_data1 = 12

-- struct RegMap: its members in their order with their sizes in words; `none` is reserved.
unfoldable pub reg_map : List (Option Reg × ℕ)
reg_map =
    (some ctrl, 1)
    ∷ (some status, 1)
    ∷ (some irq_status, 1)
    ∷ (some irq_enable, 1)
    ∷ (some version, 1)
    ∷ (some capabilities, 1)
    ∷ (none, 58)
    ∷ (some cmd_opcode, 1)
    ∷ (some cmd_arg0, 1)
    ∷ (some cmd_arg1, 1)
    ∷ (some cmd_flags, 1)
    ∷ (some result_status, 1)
    ∷ (some result_data0, 1)
    ∷ (some result_data1, 1)
    ∷ (none, 57)
    ∷ []

-- offsetof, from the byte `pos` on; a register that is not there has none.
pub offset_of : Reg → ℕ → List (Option Reg × ℕ) → Option ℕ
offset_of r pos [] = none
offset_of r pos ((none, words) ∷ members) = offset_of r (pos + 4 * words) members
offset_of r pos ((some m, words) ∷ members) =
    let rest = offset_of r (pos + 4 * words) members in
    if number m == number r then some pos else rest

-- sizeof.
unfoldable pub size_of : List (Option Reg × ℕ) → ℕ
size_of [] = 0
size_of ((m, words) ∷ members) = 4 * words + size_of members

unfoldable pub struct_offset : Reg → Option ℕ
unfolding offset_of reg_map number
struct_offset r = offset_of r 0 reg_map

-- hwip/accel/gen/rpc/accel.hpp.
unfoldable pub accel_rpc : Reg → ℕ
accel_rpc ctrl = 0x000
accel_rpc status = 0x004
accel_rpc irq_status = 0x008
accel_rpc irq_enable = 0x00c
accel_rpc version = 0x010
accel_rpc capabilities = 0x014
accel_rpc cmd_opcode = 0x100
accel_rpc cmd_arg0 = 0x104
accel_rpc cmd_arg1 = 0x108
accel_rpc cmd_flags = 0x10c
accel_rpc result_status = 0x110
accel_rpc result_data0 = 0x114
accel_rpc result_data1 = 0x118

-- hwip/accel/gen/sim/deepspan_accel/ops.hpp.
unfoldable pub accel_sim : Reg → ℕ
accel_sim ctrl = 0x000
accel_sim status = 0x004
accel_sim irq_status = 0x008
accel_sim irq_enable = 0x00c
accel_sim version = 0x010
accel_sim capabilities = 0x014
accel_sim cmd_opcode = 0x100
accel_sim cmd_arg0 = 0x104
accel_sim cmd_arg1 = 0x108
accel_sim cmd_flags = 0x10c
accel_sim result_status = 0x110
accel_sim result_data0 = 0x114
accel_sim result_data1 = 0x118

-- hwip/accel/gen/kernel/deepspan_accel.h.
unfoldable pub accel_kernel : Reg → ℕ
accel_kernel ctrl = 0x000
accel_kernel status = 0x004
accel_kernel irq_status = 0x008
accel_kernel irq_enable = 0x00c
accel_kernel version = 0x010
accel_kernel capabilities = 0x014
accel_kernel cmd_opcode = 0x100
accel_kernel cmd_arg0 = 0x104
accel_kernel cmd_arg1 = 0x108
accel_kernel cmd_flags = 0x10c
accel_kernel result_status = 0x110
accel_kernel result_data0 = 0x114
accel_kernel result_data1 = 0x118

-- hwip/crc32/gen/rpc/crc32.hpp.
unfoldable pub crc32_rpc : Reg → ℕ
crc32_rpc ctrl = 0x000
crc32_rpc status = 0x004
crc32_rpc irq_status = 0x008
crc32_rpc irq_enable = 0x00c
crc32_rpc version = 0x010
crc32_rpc capabilities = 0x014
crc32_rpc cmd_opcode = 0x100
crc32_rpc cmd_arg0 = 0x104
crc32_rpc cmd_arg1 = 0x108
crc32_rpc cmd_flags = 0x10c
crc32_rpc result_status = 0x110
crc32_rpc result_data0 = 0x114
crc32_rpc result_data1 = 0x118

-- hwip/crc32/gen/sim/deepspan_crc32/ops.hpp.
unfoldable pub crc32_sim : Reg → ℕ
crc32_sim ctrl = 0x000
crc32_sim status = 0x004
crc32_sim irq_status = 0x008
crc32_sim irq_enable = 0x00c
crc32_sim version = 0x010
crc32_sim capabilities = 0x014
crc32_sim cmd_opcode = 0x100
crc32_sim cmd_arg0 = 0x104
crc32_sim cmd_arg1 = 0x108
crc32_sim cmd_flags = 0x10c
crc32_sim result_status = 0x110
crc32_sim result_data0 = 0x114
crc32_sim result_data1 = 0x118

-- hwip/crc32/gen/kernel/deepspan_crc32.h.
unfoldable pub crc32_kernel : Reg → ℕ
crc32_kernel ctrl = 0x000
crc32_kernel status = 0x004
crc32_kernel irq_status = 0x008
crc32_kernel irq_enable = 0x00c
crc32_kernel version = 0x010
crc32_kernel capabilities = 0x014
crc32_kernel cmd_opcode = 0x100
crc32_kernel cmd_arg0 = 0x104
crc32_kernel cmd_arg1 = 0x108
crc32_kernel cmd_flags = 0x10c
crc32_kernel result_status = 0x110
crc32_kernel result_data0 = 0x114
crc32_kernel result_data1 = 0x118

-- firmware/drivers/deepspan/deepspan_hwip.c.
unfoldable pub hwip_reg : Reg → Option ℕ
hwip_reg ctrl = some 0x000
hwip_reg status = some 0x004
hwip_reg irq_status = some 0x008
hwip_reg irq_enable = some 0x00c
hwip_reg version = some 0x010
hwip_reg cmd_opcode = some 0x100
hwip_reg cmd_arg0 = some 0x104
hwip_reg cmd_arg1 = some 0x108
hwip_reg result_status = some 0x110
hwip_reg result_data0 = some 0x114
hwip_reg result_data1 = some 0x118
hwip_reg _ = none

-- firmware/drivers/deepspan/deepspan_hwip_sim.c.
unfoldable pub hwip_sim_reg : Reg → Option ℕ
hwip_sim_reg ctrl = some 0x000
hwip_sim_reg status = some 0x004
hwip_sim_reg irq_status = some 0x008
hwip_sim_reg irq_enable = some 0x00c
hwip_sim_reg version = some 0x010
hwip_sim_reg cmd_opcode = some 0x100
hwip_sim_reg cmd_arg0 = some 0x104
hwip_sim_reg cmd_arg1 = some 0x108
hwip_sim_reg cmd_flags = some 0x10c
hwip_sim_reg result_status = some 0x110
hwip_sim_reg result_data0 = some 0x114
hwip_sim_reg result_data1 = some 0x118
hwip_sim_reg _ = none

-- kernel/include/uapi/linux/deepspan_crc32.h.
unfoldable pub crc32_uapi : Reg → Option ℕ
crc32_uapi ctrl = some 0x000
crc32_uapi status = some 0x004
crc32_uapi cmd_opcode = some 0x100
crc32_uapi cmd_arg0 = some 0x104
crc32_uapi result_status = some 0x110
crc32_uapi result_data0 = some 0x114
crc32_uapi _ = none

-- server/src/mgmt_service.cpp.
unfoldable pub server_reg : Reg → Option ℕ
server_reg ctrl = some 0x000
server_reg version = some 0x010
server_reg _ = none

-- A part that names the register has the offset `o`.
abbrev pub Matches : Option ℕ → Option ℕ → Type 0
Matches part o = (part ≡ none) ⊎ (part ≡ o)

-- The parts that have the offsets.
pub data Part : Type 0 where
  in_accel_rpc in_accel_sim in_accel_kernel in_crc32_rpc in_crc32_sim in_crc32_kernel in_hwip
        in_hwip_sim in_crc32_uapi in_server :
      Part

unfoldable pub offset_in : Part → Reg → Option ℕ
offset_in in_accel_rpc r = some (accel_rpc r)
offset_in in_accel_sim r = some (accel_sim r)
offset_in in_accel_kernel r = some (accel_kernel r)
offset_in in_crc32_rpc r = some (crc32_rpc r)
offset_in in_crc32_sim r = some (crc32_sim r)
offset_in in_crc32_kernel r = some (crc32_kernel r)
offset_in in_hwip r = hwip_reg r
offset_in in_hwip_sim r = hwip_sim_reg r
offset_in in_crc32_uapi r = crc32_uapi r
offset_in in_server r = server_reg r

-- A part that names a register has it where the compiler puts the member of the struct.
pub offset_in-struct_offset :
    (p : Part) (r : Reg) (o : ℕ) → offset_in p r ≡ some o → struct_offset r ≡ some o
unfolding offset_in struct_offset accel_rpc accel_sim accel_kernel crc32_rpc crc32_sim crc32_kernel
    hwip_reg hwip_sim_reg crc32_uapi server_reg
offset_in-struct_offset p r o e = ground arith

-- Two registers of the struct do not overlap, and all lie within it.
pub struct_offset-apart :
    (r j : Reg) (o q : ℕ)
    → struct_offset r ≡ some o
    → struct_offset j ≡ some q
    → (o + 4 ≤ 0x200) × ((r ≡ j) ⊎ ((r ≢ j) × ((o + 4 ≤ q) ⊎ (q + 4 ≤ o))))
unfolding struct_offset
struct_offset-apart r j o q e f = ground arith

pub struct_offset-total : (r : Reg) → (o : ℕ) × (struct_offset r ≡ some o)
unfolding offset_in
struct_offset-total r = (accel_sim r, offset_in-struct_offset in_accel_sim r (accel_sim r) refl)

-- static_assert(sizeof(RegMap) == 0x200)
reg_map_size : size_of reg_map ≡ 0x200
unfolding size_of reg_map
reg_map_size = refl
