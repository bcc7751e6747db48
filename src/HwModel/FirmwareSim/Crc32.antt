-- ===== src/HwModel/FirmwareSim/Crc32.antt =====
-- firmware_sim beside a hw-model that dispatches to the crc32 model: its opcode 0x01, ECHO of the
-- accelerator, is COMPUTE there, and its first argument a length.
use deepspan.Common.{
  ℕ, ◌%◌, ◌^◌, ◌≤◌, ◌≡◌, refl, false, Option, none, some, List, [], ◌∷◌, length, arith,
}
use deepspan.Shm.{dma_room}
use deepspan.Crc32.Handler.{crc32_handler, crc32_handler-compute_beyond}
use deepspan.HwModel.FirmwareSim.{FwResult, fw_cmd, fw_cmd-arg0}
use deepspan.HwModel.FirmwareSim.Answers.{
  FwTurn, FwSystem, Starts, run, timed, AllAnswers, run-AllAnswers,
}

-- The argument is above 0xdead0000, far beyond the page.
fw_cmd-beyond :
    (n : ℕ) (dma : List ℕ)
    → length dma ≤ dma_room
    → crc32_handler dma (fw_cmd n).opcode (fw_cmd n).arg0 (fw_cmd n).arg1 ≡ none
unfolding fw_cmd
fw_cmd-beyond n dma h =
    crc32_handler-compute_beyond dma (fw_cmd n).arg0 (fw_cmd n).arg1
      (omega (arith, (fw_cmd-arg0 n).0))

no_answers :
    (dma : List ℕ) (rs : List (Option FwResult))
    → length dma ≤ dma_room
    → AllAnswers crc32_handler dma rs
    → rs ≡ []
no_answers dma [] h a = refl
no_answers dma (none ∷ rs) h a = absurd a
no_answers dma (some r ∷ rs) h a = absurd (cc (a.0, fw_cmd-beyond (length rs % 2 ^ 64) dma h))

-- Beside a hw-model with the crc32 dispatch, firmware_sim never records an answer: its first
-- command makes the hw-model read outside the page.
pub run-no_answers :
    (s : FwSystem) (ts : List FwTurn)
    → Starts s
    → length s.hw.page.dma ≤ dma_room
    → timed (run crc32_handler s ts).sim.results ≡ false
    → (run crc32_handler s ts).sim.results ≡ []
run-no_answers s ts b h e =
    no_answers s.hw.page.dma (run crc32_handler s ts).sim.results h
      (run-AllAnswers crc32_handler s ts b e)
