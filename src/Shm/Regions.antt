-- ===== src/Shm/Regions.antt =====
-- Where the parts of the 4096-byte page lie, as each part of the program has it: the register map,
-- the statistics and the DMA bytes. `Page` has them as three members, so they must not overlap.
use deepspan.Common.{ℕ, ◌+◌, ◌-◌, ◌*◌, ◌/◌, ◌≤◌, ◌≡◌, refl, List, [], ◌∷◌, arith}
use deepspan.Shm.{dma_room}
use deepspan.Shm.Layout.{reg_map, size_of}

-- The sizes of a struct's members, each aligned to its size.
abbrev Members : Type 0
Members = List ℕ

-- ShmStats of reg_map.hpp, and ShmStatsView of mgmt_service.cpp and of telemetry_service.cpp.
pub shm_stats : Members
shm_stats = 8 ∷ 8 ∷ 4 ∷ 4 ∷ 8 ∷ []

pub mgmt_stats : Members
mgmt_stats = 8 ∷ 8 ∷ 4 ∷ 4 ∷ 8 ∷ []

pub telemetry_stats : Members
telemetry_stats = 8 ∷ 8 ∷ 4 ∷ 4 ∷ 8 ∷ []

pub align : ℕ → ℕ → ℕ
align size pos = (pos + size - 1) / size * size

-- offsetof for each member, and behind them the struct's end.
pub offsets : ℕ → Members → List ℕ
unfolding align
offsets pos [] = pos ∷ []
offsets pos (size ∷ members) = align size pos ∷ offsets (align size pos + size) members

-- A struct's place in the page.
pub record Place : Type 0 where
  pub offset : ℕ
  pub size : ℕ

pub end_of : Place → ℕ
end_of p = p.offset + p.size

abbrev pub shm_total_size : ℕ
shm_total_size = 4096

-- RegMap at 0, and ShmStats behind it.
pub model_stats : Place
model_stats = record { offset = 0x200; size = 32 }

-- kShmStatsOffset of mgmt_service.cpp and of telemetry_service.cpp.
pub mgmt_place : Place
mgmt_place = record { offset = 0x200; size = 32 }

pub telemetry_place : Place
telemetry_place = record { offset = 0x200; size = 32 }

-- kShmDmaOffset and kShmDmaMaxLen of crc32_plugin.hpp, SHM_DMA_* of deepspan_hwip_sim.c, and
-- kShmDmaOffset of crc32_hw_model.cpp, which has no length and may read to the end of the page.
pub plugin_dma : Place
plugin_dma = record { offset = 0x300; size = 0xc00 }

pub hwip_sim_dma : Place
hwip_sim_dma = record { offset = 0x300; size = 0xc00 }

pub model_dma : Place
model_dma = record { offset = 0x300; size = shm_total_size - 0x300 }

-- The server's views of the statistics have the hw-model's members at the same places, those that
-- reg_map.hpp asserts; the statistics begin where the registers end and end before the DMA bytes;
-- the plugin and the firmware write within what the hw-model reads, and that ends with the page.
pub regions_agree :
    ((offsets 0 shm_stats ≡ 0 ∷ 8 ∷ 16 ∷ 20 ∷ 24 ∷ 32 ∷ [])
      × (offsets 0 mgmt_stats ≡ offsets 0 shm_stats)
      × (offsets 0 telemetry_stats ≡ offsets 0 shm_stats))
    × ((mgmt_place ≡ model_stats) × (telemetry_place ≡ model_stats))
    × ((size_of reg_map ≡ model_stats.offset) × (end_of model_stats ≤ model_dma.offset))
    × ((plugin_dma ≡ hwip_sim_dma)
        × (plugin_dma.offset ≡ model_dma.offset)
        × (end_of plugin_dma ≤ end_of model_dma)
        × (end_of model_dma ≡ shm_total_size)
        × (model_dma.size ≡ dma_room))
unfolding offsets shm_stats mgmt_stats telemetry_stats mgmt_place telemetry_place model_stats
    size_of reg_map end_of plugin_dma hwip_sim_dma model_dma
regions_agree =
    ((refl, refl, refl), (refl, refl), (refl, omega arith), (refl, refl, omega arith, refl, refl))
