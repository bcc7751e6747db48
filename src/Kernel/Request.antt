-- ===== src/Kernel/Request.antt =====
-- kernel/drivers/deepspan/deepspan_iouring.c: deepspan_uring_cmd_issue, its goto labels included.
-- What the kernel answers (kzalloc, copy_from_user, xa_alloc, virtqueue_add_sgs) is given.
use deepspan.Common.{
  ℕ, zero, suc, ◌+◌, ◌-◌, ◌/◌, ◌^◌, Bool, true, false, ◌==◌, if◌then◌else◌, min, Option, none, some,
  List, [], ◌∷◌, ◌++◌, take, replicate,
}
use deepspan.Common.Bytes.{le32}
use deepspan.Userlib.AsyncClient.{ℤ, pos, negsuc}

-- struct deepspan_cmd_req
pub record CmdReq : Type 0 where
  pub opcode : ℕ
  pub flags : ℕ
  pub data_ptr : ℕ
  pub data_len : ℕ
  pub timeout_ms : ℕ

-- Its bytes, sizeof(struct deepspan_cmd_req) of them.
abbrev pub cmd_req_size : ℕ
cmd_req_size = 24

unfoldable pub cmd_req_bytes : CmdReq → List ℕ
cmd_req_bytes u =
    le32 u.opcode
    ++ (le32 u.flags
        ++ (le32 u.data_ptr
            ++ (le32 (u.data_ptr / 2 ^ 32) ++ (le32 u.data_len ++ le32 u.timeout_ms))))

-- sizeof(struct deepspan_cmd_result)
abbrev pub cmd_result_size : ℕ
cmd_result_size = 16

-- struct deepspan_request; `cmd` is the identity of the io_uring_cmd.
pub record Request : Type 0 where
  pub cmd : ℕ
  pub req_id : ℕ
  pub buf : List ℕ
  pub buf_len : ℕ
  pub resp_buf : List ℕ
  pub resp_len : ℕ

pub data Worker : Type 0 where
  idle draining ending : Worker

-- What io_uring_cmd_done is given.
pub record Completion : Type 0 where
  pub cmd : ℕ
  pub status : ℤ
  pub res2 : ℕ

-- struct deepspan_device with what the kernel holds for it: the number of blocks from kzalloc, the
-- ids in the XArray, the requests in the TX queue that the firmware has and those it gave back, the
-- kicks, whether the queue's callbacks are enabled, tx_work, and the commands that are completed.
pub record Device : Type 0 where
  pub live : ℕ
  pub pending : List ℕ
  pub avail : List Request
  pub used : List Request
  pub kicks : ℕ
  pub callbacks : Bool
  pub scheduled : Bool
  pub worker : Worker
  pub completed : List Completion

-- The answers to one call: which kzalloc succeeds, the bytes that copy_from_user copies if it
-- copies all, the id or the error of xa_alloc, and what virtqueue_add_sgs returns.
pub record Answers : Type 0 where
  pub req_fits : Bool
  pub buf_fits : Bool
  pub resp_fits : Bool
  pub copied : Option (List ℕ)
  pub xa : ℤ
  pub added : ℤ

abbrev pub enomem : ℤ
enomem = negsuc 11

abbrev pub efault : ℤ
efault = negsuc 13

abbrev pub eiocbqueued : ℤ
eiocbqueued = negsuc 528

unfoldable pub kzalloc : Device → Device
kzalloc d = record d { live = d.live + 1 }

unfoldable pub kfree : Device → Device
kfree d = record d { live = d.live - 1 }

unfoldable pub xa_erase : ℕ → List ℕ → List ℕ
xa_erase id [] = []
xa_erase id (x ∷ xs) = let rest = xa_erase id xs in if x == id then rest else x ∷ rest

-- ureq->data_len ?: sizeof(struct deepspan_cmd_req)
unfoldable pub buf_len_of : CmdReq → ℕ
buf_len_of u = if u.data_len == 0 then cmd_req_size else u.data_len

-- memcpy of the command into the zeroed buffer.
unfoldable pub inline_buf : CmdReq → List ℕ
inline_buf u =
    let n = min (buf_len_of u) cmd_req_size in
    take n (cmd_req_bytes u) ++ replicate (buf_len_of u - n) 0

-- The request's bytes; `none` is a fault.
unfoldable pub fill : CmdReq → Option (List ℕ) → Option (List ℕ)
fill u copied =
    if u.data_len == 0
    then some (inline_buf u)
    else (if u.data_ptr == 0 then some (inline_buf u) else copied)

abbrev pub Issued : Type 0
Issued = Device × ℤ

-- The labels, from the last on.
unfoldable pub err_free_req : Device → ℤ → Issued
err_free_req d ret = (kfree d, ret)

unfoldable pub err_free_buf : Device → ℤ → Issued
err_free_buf d ret = err_free_req (kfree d) ret

unfoldable pub err_free_resp : Device → ℤ → Issued
err_free_resp d ret = err_free_buf (kfree d) ret

unfoldable pub err_xa_erase : Device → ℕ → ℤ → Issued
err_xa_erase d id ret = err_free_resp (record d { pending = xa_erase id d.pending }) ret

-- Under vq_lock.
unfoldable pub issue_add : Device → Request → ℤ → Issued
issue_add d req (pos zero) =
    (record d { avail = d.avail ++ (req ∷ []); kicks = d.kicks + 1 }, eiocbqueued)
issue_add d req (pos (suc n)) = err_xa_erase d req.req_id (pos (suc n))
issue_add d req (negsuc n) = err_xa_erase d req.req_id (negsuc n)

-- `pos id` is the id that xa_alloc stored the request under.
unfoldable pub issue_xa : Device → ℕ → CmdReq → List ℕ → ℤ → ℤ → Issued
issue_xa d cmd u buf (negsuc n) added = err_free_resp d (negsuc n)
issue_xa d cmd u buf (pos id) added =
    issue_add (record d { pending = id ∷ d.pending })
      (record {
        cmd = cmd;
        req_id = id;
        buf = buf;
        buf_len = buf_len_of u;
        resp_buf = replicate cmd_result_size 0;
        resp_len = cmd_result_size;
      })
      added

unfoldable pub issue_copy : Device → ℕ → CmdReq → Answers → Option (List ℕ) → Issued
issue_copy d cmd u a none = err_free_resp d efault
issue_copy d cmd u a (some buf) = issue_xa d cmd u buf a.xa a.added

unfoldable pub issue_resp : Device → ℕ → CmdReq → Answers → Bool → Issued
issue_resp d cmd u a false = err_free_buf d enomem
issue_resp d cmd u a true = issue_copy (kzalloc d) cmd u a (fill u a.copied)

unfoldable pub issue_buf : Device → ℕ → CmdReq → Answers → Bool → Issued
issue_buf d cmd u a false = err_free_req d enomem
issue_buf d cmd u a true = issue_resp (kzalloc d) cmd u a a.resp_fits

unfoldable pub issue_req : Device → ℕ → CmdReq → Answers → Bool → Issued
issue_req d cmd u a false = (d, enomem)
issue_req d cmd u a true = issue_buf (kzalloc d) cmd u a a.buf_fits

unfoldable pub uring_cmd_issue : Device → ℕ → CmdReq → Answers → Issued
uring_cmd_issue d cmd u a = issue_req d cmd u a a.req_fits
