-- ===== src/Shm.antt =====
-- sim/hw-model/include/deepspan/hw_model/reg_map.hpp: the 4096-byte page that the hw-model, the
-- plugins, the server and the firmware share. A register is a number below 2 ^ 32. The page is
-- the register map (0x000), the statistics (0x200) and, from 0x300 to its end, a list of bytes,
-- of which the crc32 plugin and the firmware use the first 0xC00 for DMA data.
pub mod Ctrl
pub mod Layout
pub mod Fields
pub mod Access
pub mod Regions
use deepspan.Common.{ℕ, ◌≡◌, ◌*◌, ◌<◌, ◌^◌, List, length}

pub record RegMap : Type 0 where
  pub ctrl : ℕ
  pub status : ℕ
  pub irq_status : ℕ
  pub irq_enable : ℕ
  pub version : ℕ
  pub capabilities : ℕ
  pub cmd_opcode : ℕ
  pub cmd_arg0 : ℕ
  pub cmd_arg1 : ℕ
  pub cmd_flags : ℕ
  pub result_status : ℕ
  pub result_data0 : ℕ
  pub result_data1 : ℕ

pub record ShmStats : Type 0 where
  pub cmd_count : ℕ
  pub start_time_sec : ℕ
  pub last_opcode : ℕ
  pub last_result_status : ℕ
  pub fw_cmd_count : ℕ

pub record Page : Type 0 where
  pub regs : RegMap
  pub stats : ShmStats
  pub dma : List ℕ

abbrev pub ready_bit : ℕ
ready_bit = 1

-- The bytes from 0x300 to the end of the page.
abbrev pub dma_room : ℕ
dma_room = 0xd00
