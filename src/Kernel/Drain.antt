-- ===== src/Kernel/Drain.antt =====
-- deepspan_tx_work_fn left to run: its loop ends.
use deepspan.Common.{
  ℕ, zero, suc, ◌+◌, ◌*◌, ◌-◌, ◌≡◌, refl, sym, ap, ap₂, ◌∙◌, true, false, Option, some, List, [],
  ◌∷◌, ◌++◌, map, length, replicate, arith,
}
use mathlib.Core.List.{append_assoc, append-nil}
use deepspan.Kernel.Request.{
  Request, Worker, idle, draining, ending, Completion, Device, kfree, xa_erase,
}
use deepspan.Kernel.Vqueue.{
  completion, complete, get_buf, tx_work_step, Event, respond, work, step, run, pick, gave_back,
}

-- The ids that are left when those of the requests are erased.
unfoldable pub erase_all : List Request → List ℕ → List ℕ
erase_all [] ids = ids
erase_all (r ∷ rs) ids = erase_all rs (xa_erase r.req_id ids)

-- The device after the work has served `rs`, before it has seen that the queue is empty.
served : Device → List Request → Device
served d rs = record d {
  live = d.live - 3 * length rs;
  pending = erase_all rs d.pending;
  used = [];
  completed = d.completed ++ map completion rs;
}

left : Device → ℕ → List Completion → Device
left d n done = record d { live = n; used = []; worker = draining; completed = done }

loop :
    (rs : List Request) (d : Device) (es : List Event)
    → run (record d { used = rs; worker = draining }) (replicate (length rs) work ++ es)
      ≡ run (record (served d rs) { worker = draining }) es
unfolding run step tx_work_step get_buf complete kfree served erase_all left
loop [] d es =
    ap₂ (λ (n : ℕ) (done : List Completion). run (left d n done) es) (omega arith)
      (sym (append-nil d.completed))
loop (r ∷ rs) d es =
    let rest : Device = record d { pending = xa_erase r.req_id d.pending } in
    loop rs (complete d r) es
    ∙ ap₂
        (λ (n : ℕ) (done : List Completion).
          run (left (record rest { pending = erase_all rs rest.pending }) n done) es)
        (omega arith) (append_assoc d.completed (completion r ∷ []) (map completion rs))

turns : (n : ℕ) → replicate (suc (suc n)) work ≡ replicate n work ++ (work ∷ work ∷ [])
turns zero = refl
turns (suc n) = ap (work ∷◌) (turns n)

-- Once tx_work is scheduled, the work function returns: with no other event, after as many turns as
-- there are requests that the firmware gave back, and three more, all of those are completed in
-- their order and once each, their ids erased and their blocks freed, and the callbacks enabled.
pub run-drain :
    (d : Device)
    → d.scheduled ≡ true
    → d.worker ≡ idle
    → run d (replicate (3 + length d.used) work) ≡ record d {
      live = d.live - 3 * length d.used;
      pending = erase_all d.used d.pending;
      used = [];
      callbacks = true;
      scheduled = false;
      worker = idle;
      completed = d.completed ++ map completion d.used;
    }
unfolding run step tx_work_step get_buf served
run-drain d s w =
    let n : ℕ = length d.used in
    let begins : tx_work_step d d.worker ≡ record d { scheduled = false; worker = draining } =
      rw (w, s) refl in
    ap (λ (k : ℕ). run d (replicate k work)) (let e : 3 + n ≡ suc (suc (suc n)) = omega arith in e)
    ∙ ap (λ (es : List Event). run d (work ∷ es)) (turns n)
    ∙ ap (λ (t : Device). run t (replicate n work ++ (work ∷ work ∷ []))) begins
    ∙ loop d.used (record d { scheduled = false }) (work ∷ work ∷ [])

-- virtqueue_enable_cb tells that the queue is not empty; the code drops its answer.
asleep : (n : ℕ) (d : Device) → d.scheduled ≡ false → d.worker ≡ idle → run d (replicate n work) ≡ d
unfolding run step tx_work_step
asleep zero d s w = refl
asleep (suc n) d s w =
    let sleeps : tx_work_step d d.worker ≡ d = rw (w, s) refl in
    ap (λ (t : Device). run t (replicate n work)) sleeps ∙ asleep n d s w

-- If the firmware gives a request back after virtqueue_get_buf has found none and before
-- virtqueue_enable_cb, and no interrupt follows, then however often the workqueue runs that request
-- is not completed: it stays in the queue, and tx_work is neither running nor scheduled.
pub run-stranded :
    (d : Device) (i n : ℕ) (bytes : List ℕ) (r : Request) (rest : List Request)
    → d.worker ≡ ending
    → d.scheduled ≡ false
    → pick d.avail i ≡ some (r, rest)
    → run d (respond i bytes ∷ work ∷ replicate n work) ≡ record d {
      avail = rest;
      used = d.used ++ (record r { resp_buf = bytes } ∷ []);
      callbacks = true;
      worker = idle;
    }
unfolding run step tx_work_step gave_back
run-stranded d i n bytes r rest w s h =
    let after : Device = record d {
      avail = rest;
      used = d.used ++ (record r { resp_buf = bytes } ∷ []);
    } in
    let given : gave_back d (pick d.avail i) bytes ≡ after =
      ap (λ (o : Option (Request × List Request)). gave_back d o bytes) h in
    ap (λ (t : Device). run t (work ∷ replicate n work)) given
    ∙ ap (λ (t : Worker). run (tx_work_step after t) (replicate n work)) w
    ∙ asleep n (record after { callbacks = true; worker = idle }) s refl
