-- ===== src/Tests/Wire.antt =====
-- A request through a submission entry that keeps only what the driver reads.
use deepspan.Common.{ℕ, ◌≡◌, refl, false, none, some, List, [], ◌∷◌, ◌++◌, take, drop, replicate}
use deepspan.Common.Bytes.{le_value}
use deepspan.Accel.{validate_opcode}
use deepspan.Crc32.Opcodes
use deepspan.Kernel.Request.{fill, inline_buf}
use deepspan.Kernel.Wire.{area_size, cmd_req_of, submitted, submitted-lost}

-- A submission entry by its length, offset and command area.
record Entry : Type 0 where
  len : ℕ
  offset : ℕ
  cmd : List ℕ

abbrev prep_entry : Entry → ℕ → ℕ → ℕ → ℕ → Entry
prep_entry sqe fd addr len offset = record {
  len = len;
  offset = offset;
  cmd = replicate area_size 0;
}

abbrev set_op : ℕ → Entry → Entry
set_op cmd_op sqe = record sqe { offset = cmd_op }

abbrev area_of : Entry → List ℕ
area_of sqe = sqe.cmd

abbrev free_entry : Entry
free_entry = record { len = 0; offset = 0; cmd = 7 ∷ [] }

submitted-lost_example :
    let sqe =
      submitted Entry prep_entry set_op (λ user_data sqe. sqe) area_of free_entry 5 4096 9 in
    let u = cmd_req_of (area_of sqe ++ (46 ∷ 0 ∷ 0 ∷ 0 ∷ [])) in
    (u ≡ record {
      opcode = 0;
      flags = 0;
      data_ptr = 0;
      data_len = le_value (take 4 (46 ∷ 0 ∷ 0 ∷ 0 ∷ []));
      timeout_ms = le_value (take 4 (drop 4 (46 ∷ 0 ∷ 0 ∷ 0 ∷ [])));
    })
    × (fill u none ≡ some (inline_buf u))
    × (validate_opcode u.opcode ≡ false)
    × (Opcodes.validate_opcode u.opcode ≡ false)
submitted-lost_example =
    submitted-lost Entry prep_entry set_op (λ user_data sqe. sqe) area_of
      (λ sqe fd addr len offset. refl) (λ cmd_op sqe. refl) (λ user_data sqe. refl) free_entry 5
      4096 9 (46 ∷ 0 ∷ 0 ∷ 0 ∷ []) none
