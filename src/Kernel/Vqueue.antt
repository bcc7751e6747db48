-- ===== src/Kernel/Vqueue.antt =====
-- kernel/drivers/deepspan/deepspan_vqueue.c: the TX callback and the work that completes requests.
use deepspan.Common.{
  ℕ, zero, suc, ◌*◌, ◌-◌, ◌^◌, true, false, leb, ltb, if◌then◌else◌, bit_or, Option, none, some,
  List, [], ◌∷◌, ◌++◌, take, drop,
}
use deepspan.Common.Bytes.{le_value}
use deepspan.Userlib.AsyncClient.{ℤ, pos, negsuc}
use deepspan.Kernel.Request.{
  CmdReq, Request, Worker, idle, draining, ending, Completion, Device, Answers, kfree, xa_erase,
  uring_cmd_issue,
}

-- A __s32 out of its 32 bits.
unfoldable pub s32 : ℕ → ℤ
s32 n = if ltb n (2 ^ 31) then pos n else negsuc (2 ^ 32 - 1 - n)

-- The fields of struct deepspan_result_hdr in the response slot, which every request has.
unfoldable pub completion : Request → Completion
completion r =
    if leb 16 r.resp_len
    then record {
      cmd = r.cmd;
      status = s32 (le_value (take 4 r.resp_buf));
      res2 =
          bit_or (le_value (take 4 (drop 4 r.resp_buf)))
            (le_value (take 4 (drop 8 r.resp_buf)) * 2 ^ 32);
    }
    else record { cmd = r.cmd; status = pos 0; res2 = 0 }

-- One turn of the loop's body.
unfoldable pub complete : Device → Request → Device
complete d r =
    let done : Device = record d {
      pending = xa_erase r.req_id d.pending;
      completed = d.completed ++ (completion r ∷ []);
    } in
    kfree (kfree (kfree done))

-- virtqueue_get_buf and what follows on its answer.
unfoldable pub get_buf : Device → List Request → Device
get_buf d [] = record d { worker = ending }
get_buf d (r ∷ rest) = complete (record d { used = rest }) r

-- One step of the workqueue: it begins deepspan_tx_work_fn, goes round its loop, or leaves it with
-- virtqueue_enable_cb, whose answer the code drops.
unfoldable pub tx_work_step : Device → Worker → Device
tx_work_step d idle = if d.scheduled then record d { scheduled = false; worker = draining } else d
tx_work_step d draining = get_buf d d.used
tx_work_step d ending = record d { callbacks = true; worker = idle }

-- virtqueue_disable_cb and schedule_work.
unfoldable pub vq_tx_cb : Device → Device
vq_tx_cb d = record d { callbacks = false; scheduled = true }

-- The firmware takes the request at a place of the queue.
unfoldable pub pick : List Request → ℕ → Option (Request × List Request)
pick [] i = none
pick (r ∷ rs) zero = some (r, rs)
pick (r ∷ rs) (suc i) = elim (pick rs i) [
  | none ↦ none
  | some (found, rest) ↦ some (found, r ∷ rest)
]

unfoldable pub gave_back : Device → Option (Request × List Request) → List ℕ → Device
gave_back d none bytes = d
gave_back d (some (r, rest)) bytes = record d {
  avail = rest;
  used = d.used ++ (record r { resp_buf = bytes } ∷ []);
}

-- What can happen to the device: a command comes, the firmware writes a response and gives the
-- request at a place of the queue back, the TX interrupt runs the callback, the workqueue runs.
pub data Event : Type 0 where
  issue : ℕ → CmdReq → Answers → Event
  respond : ℕ → List ℕ → Event
  tx_cb : Event
  work : Event

unfoldable pub step : Device → Event → Device
step d (issue cmd u a) = (uring_cmd_issue d cmd u a).0
step d (respond i bytes) = gave_back d (pick d.avail i) bytes
step d tx_cb = vq_tx_cb d
step d work = tx_work_step d d.worker

unfoldable pub run : Device → List Event → Device
run d [] = d
run d (e ∷ es) = run (step d e) es
