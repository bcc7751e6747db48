-- ===== src/Tests/Crc32.antt =====
-- The string "123456789" and near it.
use deepspan.Common.{ℕ, ◌≡◌, ◌≢◌, ◌↔◌, ◌<◌, List, [], ◌∷◌, some, none, arith}
use deepspan.Common.Bytes.{IsBytes}
use deepspan.Crc32.{compute_crc32, op_compute}
use deepspan.Crc32.Serial.{serial_crc32, compute_crc32-serial}
use deepspan.Crc32.Detect.{compute_crc32-detects}
use deepspan.Crc32.Handler.{crc32_handler, crc32_handler-none_iff}

abbrev digits : List ℕ
digits = 49 ∷ 50 ∷ 51 ∷ 52 ∷ 53 ∷ []

digits-IsBytes : IsBytes digits
digits-IsBytes = (omega arith, (omega arith, (omega arith, (omega arith, (omega arith, tt)))))

compute_crc32-serial_example : compute_crc32 digits 3 ≡ some (serial_crc32 (49 ∷ 50 ∷ 51 ∷ []))
compute_crc32-serial_example = compute_crc32-serial digits 3 digits-IsBytes (omega arith)

compute_crc32-detects_example :
    compute_crc32 digits 5 ≢ compute_crc32 (49 ∷ 50 ∷ 99 ∷ 52 ∷ 53 ∷ []) 5
compute_crc32-detects_example =
    compute_crc32-detects (49 ∷ 50 ∷ []) (52 ∷ 53 ∷ []) 51 99 5 digits-IsBytes
      (omega arith, (omega arith, (omega arith, (omega arith, (omega arith, tt))))) (omega arith)
      (omega arith) (omega arith)

crc32_handler-none_iff_example :
    (crc32_handler digits op_compute 6 0 ≡ none) ↔ ((op_compute ≡ op_compute) × (5 < 6))
crc32_handler-none_iff_example = crc32_handler-none_iff digits op_compute 6 0
