-- ===== src/Kernel/Wire.antt =====
-- A request on its way from runtime/userlib/src/async_client.cpp to the firmware through
-- kernel/drivers/deepspan/deepspan_iouring.c, and its result on the way back. The submission entry
-- belongs to liburing and the kernel: what they do with one is given.
use deepspan.Common.{
  ℕ, ◌^◌, ◌<◌, ◌≡◌, refl, sym, ap, subst, ◌∙◌, false, Option, some, List, ◌++◌, take, drop,
  replicate, arith,
}
use deepspan.Common.Bytes.{le_value}
use deepspan.Userlib.AsyncClient.{
  ℤ, pos, negsuc, Expected, expected, unexpected, io_error, DeepspanResult,
}
use deepspan.Userlib.AsyncClient
use deepspan.Kernel.Request.{CmdReq, Request, fill, inline_buf, cmd_result_size}
use deepspan.Kernel.Vqueue.{completion}
use deepspan.Kernel.Response.{result_bytes, u32, IsInt32, completion-result_bytes}
use deepspan.Accel.{validate_opcode}
use deepspan.Crc32.Opcodes

-- struct deepspan_cmd_req at the address that io_uring_sqe_cmd gives.
unfoldable pub cmd_req_of : List ℕ → CmdReq
cmd_req_of bytes = record {
  opcode = le_value (take 4 bytes);
  flags = le_value (take 4 (drop 4 bytes));
  data_ptr = le_value (take 8 (drop 8 bytes));
  data_len = le_value (take 4 (drop 16 bytes));
  timeout_ms = le_value (take 4 (drop 20 bytes));
}

-- The size of the command area of an entry of 64 bytes.
abbrev pub area_size : ℕ
area_size = 16

-- The command area is clear, and `next` follows it.
abbrev blank_req : ℕ → ℕ → CmdReq
blank_req len timeout = record {
  opcode = 0;
  flags = 0;
  data_ptr = 0;
  data_len = len;
  timeout_ms = timeout;
}

cmd_req_of-blank :
    (next : List ℕ)
    → cmd_req_of (replicate area_size 0 ++ next)
      ≡ blank_req (le_value (take 4 next)) (le_value (take 4 (drop 4 next)))
unfolding cmd_req_of le_value
cmd_req_of-blank next = refl

fill-blank :
    (len timeout : ℕ) (copied : Option (List ℕ))
    → fill (blank_req len timeout) copied ≡ some (inline_buf (blank_req len timeout))
unfolding fill
fill-blank len timeout copied = ground arith

-- io_uring_prep_rw with file, address, length and offset; the store to `cmd_op`;
-- io_uring_sqe_set_data64; and the bytes of the command area.
module _ (Sqe : Type 0) (prep_rw : Sqe → ℕ → ℕ → ℕ → ℕ → Sqe) (set_cmd_op : ℕ → Sqe → Sqe)
    (set_data64 : ℕ → Sqe → Sqe) (area : Sqe → List ℕ) where
  unfoldable pub prep_uring_cmd : Sqe → ℕ → ℕ → ℕ → ℕ → Sqe
  prep_uring_cmd sqe fd cmd_op addr len = set_cmd_op cmd_op (prep_rw sqe fd addr len 0)

  -- The entry that submit() leaves for a request at `addr`: DEEPSPAN_CMD_OP is 0, and a request has
  -- 24 bytes.
  unfoldable pub submitted : Sqe → ℕ → ℕ → ℕ → Sqe
  submitted sqe fd addr user_data = set_data64 user_data (prep_uring_cmd sqe fd 0 addr 24)

  -- If io_uring_prep_rw clears the command area and the other two leave it alone: whatever request
  -- stands at whatever address, the driver takes opcode 0, no flags and a null data pointer from the
  -- entry, and the length and the timeout from what follows the entry in memory; it copies nothing
  -- from the caller, and neither HWIP has that opcode.
  pub submitted-lost :
      ((sqe : Sqe) (fd addr len offset : ℕ)
        → area (prep_rw sqe fd addr len offset) ≡ replicate area_size 0)
      → ((cmd_op : ℕ) (sqe : Sqe) → area (set_cmd_op cmd_op sqe) ≡ area sqe)
      → ((user_data : ℕ) (sqe : Sqe) → area (set_data64 user_data sqe) ≡ area sqe)
      → (sqe : Sqe) (fd addr user_data : ℕ) (next : List ℕ) (copied : Option (List ℕ))
      → let u = cmd_req_of (area (submitted sqe fd addr user_data) ++ next) in
        (u ≡ record {
          opcode = 0;
          flags = 0;
          data_ptr = 0;
          data_len = le_value (take 4 next);
          timeout_ms = le_value (take 4 (drop 4 next));
        })
        × (fill u copied ≡ some (inline_buf u))
        × (validate_opcode u.opcode ≡ false)
        × (Opcodes.validate_opcode u.opcode ≡ false)
  unfolding submitted prep_uring_cmd
  submitted-lost cleared kept_op kept_data sqe fd addr user_data next copied =
      let blank : area (submitted sqe fd addr user_data) ≡ replicate area_size 0 =
        kept_data user_data (set_cmd_op 0 (prep_rw sqe fd addr 24 0))
        ∙ kept_op 0 (prep_rw sqe fd addr 24 0)
        ∙ cleared sqe fd addr 24 0 in
      let e = ap (λ (bytes : List ℕ). cmd_req_of (bytes ++ next)) blank ∙ cmd_req_of-blank next in
      (
        e,
        subst (λ (u : CmdReq). fill u copied ≡ some (inline_buf u)) (sym e)
            (fill-blank (le_value (take 4 next)) (le_value (take 4 (drop 4 next))) copied),
        ap (λ (u : CmdReq). validate_opcode u.opcode) e ∙ (unfold validate_opcode in refl),
        ap (λ (u : CmdReq). Opcodes.validate_opcode u.opcode) e
            ∙ (unfold Opcodes.validate_opcode in refl),
      )

-- What the caller is told of the firmware's status.
abbrev pub told : ℤ → Expected DeepspanResult
told (pos n) = expected (record { status = pos n; result_lo = 0; result_hi = 0 })
told (negsuc n) = unexpected io_error

completion-told : (status : ℤ) → AsyncClient.completion status ≡ told status
unfolding AsyncClient.completion
completion-told (pos n) = refl
completion-told (negsuc n) = refl

-- The way back: with a status that is not negative, whatever two words the firmware stores in the
-- response slot, the callback of the caller is given that status and two zero words; a negative
-- status, whichever it is, becomes IoError.
pub completion-lost :
    (r : Request) (status : ℤ) (lo hi : ℕ)
    → IsInt32 status
    → lo < 2 ^ 32
    → hi < 2 ^ 32
    → r.resp_buf ≡ result_bytes (u32 status) lo hi
    → r.resp_len ≡ cmd_result_size
    → AsyncClient.completion (completion r).status ≡ told status
completion-lost r status lo hi i l h e len =
    ap (λ c. AsyncClient.completion c.status) (completion-result_bytes r status lo hi i l h e len)
    ∙ completion-told status
