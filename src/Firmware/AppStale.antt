-- ===== src/Firmware/AppStale.antt =====
-- firmware/app/src/main.cpp on the sim driver of firmware/drivers/deepspan: its two tests, one after
-- the other.
use deepspan.Common.{ℕ, ◌≡◌, refl, some, List, ◌++◌, drop, length}
use deepspan.Crc32.{poly}
use deepspan.Crc32.Handler.{crc32_handler, crc32_handler-get_poly}
use deepspan.Shm.{Page}
use deepspan.HwModel.{HwServer, Reply}
use deepspan.Userlib.AsyncClient.{pos}
use deepspan.Firmware.Driver.{SimData, Submitted, returned, run, set_dma}
use deepspan.Firmware.Stale.{at_rest, served_turns, early_turns, again, reply_of, run-again}
use deepspan.Firmware.App.{
  pass, mismatch, checked, get_poly_cmd, compute_cmd, test_data, test_get_poly, test_compute,
}

polynomial : Reply
polynomial = record { status = 0; data0 = poly; data1 = 0 }

get_poly-answer :
    (dma : List ℕ)
    → crc32_handler dma get_poly_cmd.opcode get_poly_cmd.arg0 get_poly_cmd.arg1 ≡ some polynomial
unfolding get_poly_cmd polynomial
get_poly-answer dma = crc32_handler-get_poly dma 0 0

verdicts :
    (test_get_poly (reply_of polynomial) ≡ pass poly)
    × (test_compute (pos 0) (reply_of polynomial) ≡ mismatch poly)
unfolding test_get_poly test_compute checked polynomial
verdicts = (refl, refl)

set_dma_bytes :
    (p : Page)
    → set_dma (some p) test_data
      ≡ (pos 0, some (record p { dma = test_data ++ drop (length test_data) p.dma }))
unfolding set_dma
set_dma_bytes p = refl

-- On a crc32 hw-model and a driver that are at rest, there is an interleaving in which the app logs
-- that GET_POLY gave the polynomial, stages its test message, and then logs that COMPUTE of the
-- message gave the polynomial too, which is not its checksum: both calls of submit_cmd return 0.
pub tests_stale :
    (hw : HwServer) (sim : SimData)
    → let s = run crc32_handler get_poly_cmd (at_rest hw sim) served_turns in
      let bytes = test_data ++ drop (length test_data) s.hw.page.dma in
      let t = run crc32_handler (compute_cmd test_data) (again bytes s) early_turns in
      (x : Submitted) × (y : Submitted) × (s.submit ≡ returned x)
      × (test_get_poly x ≡ pass poly)
      × (set_dma (some s.hw.page) test_data ≡ (pos 0, some (again bytes s).hw.page))
      × (t.submit ≡ returned y)
      × (test_compute (pos 0) y ≡ mismatch poly)
tests_stale hw sim =
    let s = run crc32_handler get_poly_cmd (at_rest hw sim) served_turns in
    let (first, second) =
      run-again crc32_handler get_poly_cmd (compute_cmd test_data) hw sim polynomial
        (test_data ++ drop (length test_data) s.hw.page.dma) (get_poly-answer hw.page.dma) in
    (
      reply_of polynomial,
      reply_of polynomial,
      first,
      verdicts.0,
      set_dma_bytes s.hw.page,
      second,
      verdicts.1,
    )
