-- ===== src/Firmware/App.antt =====
-- firmware/app/src/main.cpp with CONFIG_DEEPSPAN_HWIP_DRIVER_SIM: the two tests and the periodic
-- loop, on what the driver's calls return.
use deepspan.Common.{
  ℕ, zero, suc, ◌+◌, ◌%◌, ◌^◌, ◌≤◌, ◌≡◌, refl, sym, ap, ◌∙◌, ◌==◌, if◌then◌else◌, Option, some,
  List, [], ◌∷◌, ◌++◌, length, drop, arith, length-append, length-drop, take-append_left,
}
use deepspan.Common.Bytes.{IsBytes, IsBytes-append, IsBytes-drop}
use deepspan.Shm.{Page}
use deepspan.Plugin.{Cmd}
use deepspan.Userlib.AsyncClient.{ℤ, pos, negsuc}
use deepspan.Crc32.{op_compute, op_get_poly, poly}
use deepspan.Crc32.Serial.{serial_crc32}
use deepspan.Crc32.Handler.{crc32_handler, crc32_handler-compute}
use deepspan.HwModel.{Reply}
use deepspan.Firmware.Driver.{Submitted, System, Turn, returned, run, shm_dma_max_len, set_dma}
use deepspan.Firmware.Safety.{Begins, run_answers}
use mathlib.Core.Option.{some-injective}

-- What a test logs.
pub data Verdict : Type 0 where
  pass mismatch : ℕ → Verdict
  submit_failed dma_failed : ℤ → Verdict

unfoldable pub get_poly_cmd : Cmd
get_poly_cmd = record { opcode = op_get_poly; arg0 = 0; arg1 = 0 }

-- "123456789"
abbrev pub test_data : List ℕ
test_data = 49 ∷ 50 ∷ 51 ∷ 52 ∷ 53 ∷ 54 ∷ 55 ∷ 56 ∷ 57 ∷ []

unfoldable pub compute_cmd : List ℕ → Cmd
compute_cmd message = record { opcode = op_compute; arg0 = length message; arg1 = 0 }

unfoldable pub checked : ℕ → ℤ → ℕ → Verdict
checked wanted (pos zero) found = if found == wanted then pass found else mismatch found
checked wanted (pos (suc n)) found = submit_failed (pos (suc n))
checked wanted (negsuc n) found = submit_failed (negsuc n)

-- Test 1 on what submit_cmd returns for `get_poly_cmd`.
unfoldable pub test_get_poly : Submitted → Verdict
test_get_poly s = checked poly s.ret s.data0

-- Test 2 on what set_dma returns for `test_data`, and submit_cmd then for `compute_cmd`.
unfoldable pub test_compute : ℤ → Submitted → Verdict
test_compute (pos zero) s = checked 0xcbf4_3926 s.ret s.data0
test_compute (pos (suc n)) s = dma_failed (pos (suc n))
test_compute (negsuc n) s = dma_failed (negsuc n)

-- One round of the periodic loop: what it logs, and the next number.
pub data Logged : Type 0 where
  crc : ℕ → ℕ → Logged
  submit_warning dma_warning : ℕ → ℤ → Logged

unfoldable pub logged : ℕ → ℤ → Submitted → Logged
logged seq (pos zero) s = crc seq s.data0
logged seq (pos (suc n)) s = submit_warning seq (pos (suc n))
logged seq (negsuc n) s = submit_warning seq (negsuc n)

unfoldable pub loop_round : ℕ → ℤ → Submitted → Logged × ℕ
loop_round seq (pos zero) s = (logged seq s.ret s, (seq + 1) % 2 ^ 32)
loop_round seq (pos (suc n)) s = (dma_warning seq (pos (suc n)), (seq + 1) % 2 ^ 32)
loop_round seq (negsuc n) s = (dma_warning seq (negsuc n), (seq + 1) % 2 ^ 32)

unfoldable filled : Page → List ℕ → Page
filled p message = record p { dma = message ++ drop (length message) p.dma }

set_dma-fits :
    (p : Page) (message : List ℕ)
    → length message ≤ shm_dma_max_len
    → set_dma (some p) message ≡ (pos 0, some (filled p message))
unfolding set_dma filled
set_dma-fits p message h = ground arith

-- After set_dma of a message that fits, the page has as many DMA bytes as before, and a crc32
-- hw-model answers `compute_cmd` on it with the serial CRC-32 of the message.
pub set_dma-compute :
    (p : Page) (message : List ℕ)
    → IsBytes message
    → IsBytes p.dma
    → length message ≤ shm_dma_max_len
    → shm_dma_max_len ≤ length p.dma
    → (q : Page) × (set_dma (some p) message ≡ (pos 0, some q))
      × (length q.dma ≡ length p.dma)
      × (crc32_handler q.dma
            (compute_cmd message).opcode
            (compute_cmd message).arg0
            (compute_cmd message).arg1
          ≡ some (record { status = 0; data0 = serial_crc32 message; data1 = 0 }))
unfolding compute_cmd filled
set_dma-compute p message v w l m =
    let n : ℕ = length message in
    let rest : List ℕ = drop n p.dma in
    let long : length (message ++ rest) ≡ length p.dma =
      omega (arith, length-append message rest, length-drop n p.dma) in
    (
      filled p message,
      set_dma-fits p message l,
      long,
      crc32_handler-compute (message ++ rest) n 0
            (IsBytes-append message rest v (IsBytes-drop n p.dma w)) (omega arith)
          ∙ ap (λ (t : List ℕ). some (record { status = 0; data0 = serial_crc32 t; data1 = 0 }))
              (take-append_left message rest n refl),
    )

-- The checksum that the app reports: if set_dma took the message and the first submit_cmd of
-- `compute_cmd`, on that page, returns 0 after any interleaving with a crc32 hw-model, its result is
-- the serial CRC-32 of the message.
pub run_checksum :
    (p : Page) (message : List ℕ) (s : System) (ts : List Turn) (x : Submitted)
    → IsBytes message
    → IsBytes p.dma
    → length message ≤ shm_dma_max_len
    → shm_dma_max_len ≤ length p.dma
    → set_dma (some p) message ≡ (pos 0, some s.hw.page)
    → Begins s
    → (run crc32_handler (compute_cmd message) s ts).submit ≡ returned x
    → x.ret ≡ pos 0
    → x.data0 ≡ serial_crc32 message
run_checksum p message s ts x v w l m taken b e zero_ret =
    let (q, filled_page, long, answer) = set_dma-compute p message v w l m in
    let same_page : s.hw.page ≡ q =
      some-injective s.hw.page q (ap (λ (t : ℤ × Option Page). t.1) (sym taken ∙ filled_page)) in
    let said = run_answers crc32_handler (compute_cmd message) s ts x b e zero_ret in
    ap (λ (r : Reply). r.data0)
      (some-injective _ _ (
        sym said
        ∙ ap
            (λ (t : Page).
              crc32_handler t.dma (compute_cmd message).opcode (compute_cmd message).arg0
                (compute_cmd message).arg1)
            same_page
        ∙ answer))
