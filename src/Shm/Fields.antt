-- ===== src/Shm/Fields.antt =====
-- The fields of the registers by their masks, as reg_map.hpp, the headers generated for each HWIP,
-- the firmware's drivers and the server have them, and the tests that the code makes with them.
use deepspan.Common.{ℕ, ◌≡◌, ◌≢◌, refl, not, ◌==◌, Option, none, some, bit_and, bit_or, arith}
use deepspan.Shm.{ready_bit}
use deepspan.Shm.Ctrl.{has_start, set_start, has_reset, set_reset}
use deepspan.Shm.Layout.{Reg, ctrl, status, irq_status, irq_enable, capabilities, Matches}

pub data Field : Type 0 where
  ctrl_reset ctrl_start ctrl_irq_clr status_ready status_busy status_error irq_status_done
        irq_enable_done caps_dma caps_irq caps_multi :
      Field

-- The register that has the field.
unfoldable pub reg_of : Field → Reg
reg_of ctrl_reset = ctrl
reg_of ctrl_start = ctrl
reg_of ctrl_irq_clr = ctrl
reg_of status_ready = status
reg_of status_busy = status
reg_of status_error = status
reg_of irq_status_done = irq_status
reg_of irq_enable_done = irq_enable
reg_of caps_dma = capabilities
reg_of caps_irq = capabilities
reg_of caps_multi = capabilities

-- ctrl_bits, status_bits and HW_CAPS_* of reg_map.hpp.
unfoldable pub model_mask : Field → Option ℕ
model_mask ctrl_reset = some 1
model_mask ctrl_start = some 2
model_mask ctrl_irq_clr = some 4
model_mask status_ready = some 1
model_mask status_busy = some 2
model_mask status_error = some 4
model_mask caps_dma = some 1
model_mask caps_irq = some 2
model_mask caps_multi = some 4
model_mask _ = none

-- hwip/accel/gen/sim/deepspan_accel/ops.hpp.
unfoldable pub accel_sim_mask : Field → ℕ
accel_sim_mask ctrl_reset = 1
accel_sim_mask ctrl_start = 2
accel_sim_mask ctrl_irq_clr = 4
accel_sim_mask status_ready = 1
accel_sim_mask status_busy = 2
accel_sim_mask status_error = 4
accel_sim_mask irq_status_done = 1
accel_sim_mask irq_enable_done = 1
accel_sim_mask caps_dma = 1
accel_sim_mask caps_irq = 2
accel_sim_mask caps_multi = 4

-- hwip/accel/gen/kernel/deepspan_accel.h.
unfoldable pub accel_kernel_mask : Field → ℕ
accel_kernel_mask ctrl_reset = 1
accel_kernel_mask ctrl_start = 2
accel_kernel_mask ctrl_irq_clr = 4
accel_kernel_mask status_ready = 1
accel_kernel_mask status_busy = 2
accel_kernel_mask status_error = 4
accel_kernel_mask irq_status_done = 1
accel_kernel_mask irq_enable_done = 1
accel_kernel_mask caps_dma = 1
accel_kernel_mask caps_irq = 2
accel_kernel_mask caps_multi = 4

-- hwip/crc32/gen/sim/deepspan_crc32/ops.hpp, whose device has no MULTI.
unfoldable pub crc32_sim_mask : Field → Option ℕ
crc32_sim_mask ctrl_reset = some 1
crc32_sim_mask ctrl_start = some 2
crc32_sim_mask ctrl_irq_clr = some 4
crc32_sim_mask status_ready = some 1
crc32_sim_mask status_busy = some 2
crc32_sim_mask status_error = some 4
crc32_sim_mask irq_status_done = some 1
crc32_sim_mask irq_enable_done = some 1
crc32_sim_mask caps_dma = some 1
crc32_sim_mask caps_irq = some 2
crc32_sim_mask _ = none

-- hwip/crc32/gen/kernel/deepspan_crc32.h.
unfoldable pub crc32_kernel_mask : Field → Option ℕ
crc32_kernel_mask ctrl_reset = some 1
crc32_kernel_mask ctrl_start = some 2
crc32_kernel_mask ctrl_irq_clr = some 4
crc32_kernel_mask status_ready = some 1
crc32_kernel_mask status_busy = some 2
crc32_kernel_mask status_error = some 4
crc32_kernel_mask irq_status_done = some 1
crc32_kernel_mask irq_enable_done = some 1
crc32_kernel_mask caps_dma = some 1
crc32_kernel_mask caps_irq = some 2
crc32_kernel_mask _ = none

-- CTRL_START and IRQ_DONE of deepspan_hwip.c.
unfoldable pub hwip_mask : Field → Option ℕ
hwip_mask ctrl_start = some 2
hwip_mask irq_status_done = some 1
hwip_mask irq_enable_done = some 1
hwip_mask _ = none

-- The same and STATUS_READY of deepspan_hwip_sim.c.
unfoldable pub hwip_sim_mask : Field → Option ℕ
hwip_sim_mask ctrl_start = some 2
hwip_sim_mask status_ready = some 1
hwip_sim_mask irq_status_done = some 1
hwip_sim_mask irq_enable_done = some 1
hwip_sim_mask _ = none

-- kCtrlResetBit of mgmt_service.cpp.
unfoldable pub server_mask : Field → Option ℕ
server_mask ctrl_reset = some 1
server_mask _ = none

-- Every field has one mask, that of the accel header, wherever a part names it; and two fields of
-- one register share no bit.
pub masks_agree :
    (f : Field)
    → ((accel_kernel_mask f ≡ accel_sim_mask f)
        × Matches (model_mask f) (some (accel_sim_mask f))
        × Matches (crc32_sim_mask f) (some (accel_sim_mask f))
        × (crc32_kernel_mask f ≡ crc32_sim_mask f))
      × (Matches (hwip_mask f) (some (accel_sim_mask f))
          × Matches (hwip_sim_mask f) (some (accel_sim_mask f))
          × Matches (server_mask f) (some (accel_sim_mask f)))
      × ((g : Field)
          → reg_of f ≡ reg_of g
          → f ≢ g
          → bit_and (accel_sim_mask f) (accel_sim_mask g) ≡ 0)
unfolding accel_sim_mask accel_kernel_mask model_mask crc32_sim_mask crc32_kernel_mask hwip_mask
    hwip_sim_mask server_mask reg_of
masks_agree f = ground arith

-- The code tests and sets CTRL's bits by these masks.
pub ctrl-masks :
    (c : ℕ)
    → (has_start c ≡ not (bit_and c (accel_sim_mask ctrl_start) == 0))
      × (set_start c ≡ bit_or c (accel_sim_mask ctrl_start))
      × (has_reset c ≡ not (bit_and c (accel_sim_mask ctrl_reset) == 0))
      × (set_reset c ≡ bit_or c (accel_sim_mask ctrl_reset))
      × (ready_bit ≡ accel_sim_mask status_ready)
unfolding has_start set_start has_reset set_reset accel_sim_mask
ctrl-masks c = (refl, refl, refl, refl, refl)
