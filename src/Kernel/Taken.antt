-- ===== src/Kernel/Taken.antt =====
-- Where the commands are that the driver has taken.
use deepspan.Common.{
  ◌≤◌, length, ℕ, ◌+◌, ◌≡◌, ◌≢◌, inl, inr, refl, sym, ap, ◌∙◌, Bool, true, false, ◌==◌,
  if◌then◌else◌, List, [], ◌∷◌, ◌++◌, arith, ==_iff, Bool-cases, Option-cases,
}
use deepspan.Userlib.AsyncClient.{ℤ, pos, negsuc}
use deepspan.Kernel.Request.{
  CmdReq, Request, Worker, idle, draining, ending, Device, Answers, Issued, kfree, eiocbqueued,
  uring_cmd_issue,
}
use deepspan.Kernel.Vqueue.{
  completion, complete, get_buf, tx_work_step, vq_tx_cb, Event, issue, respond, tx_cb, work, step,
  run, pick, gave_back,
}
use deepspan.Kernel.Tally.{tally, tally-append, same, Picked, pick_lem}
use deepspan.Kernel.Invariant.{Inv-outstanding, cmd_of, done_of, Inv, taken}
use deepspan.Kernel.Exact.{run-Inv, Behaves, is_queued, accepts, accepted, rest-Behaves}
use deepspan.Kernel.Unwind.{IsRefused, IsQueued, uring_cmd_issue-cases}

cmd-completion : (r : Request) → (completion r).cmd ≡ r.cmd
unfolding completion
cmd-completion r = ground arith

module _ (k : ℕ) (d : Device) where
  complete-taken :
      (r : Request) (rest : List Request)
      → taken k (complete (record d { used = rest }) r) ≡ taken k (record d { used = r ∷ rest })
  unfolding taken complete kfree tally
  complete-taken r rest = omega (
    arith,
    tally-append done_of k d.completed (completion r ∷ []),
    ap (λ (c : ℕ). tally same k (c ∷ [])) (cmd-completion r),
  )

  get_buf-taken : (rs : List Request) → d.used ≡ rs → taken k (get_buf d rs) ≡ taken k d
  unfolding get_buf taken
  get_buf-taken [] e = refl
  get_buf-taken (r ∷ rest) e =
      complete-taken r rest ∙ ap (λ us. taken k (record d { used = us })) (sym e)

  begin-taken :
      (b : Bool)
      → taken k (if b then record d { scheduled = false; worker = draining } else d) ≡ taken k d
  unfolding taken
  begin-taken true = refl
  begin-taken false = refl

  work-taken : (w : Worker) → taken k (tx_work_step d w) ≡ taken k d
  unfolding tx_work_step taken
  work-taken idle = begin-taken d.scheduled
  work-taken draining = get_buf-taken d.used refl
  work-taken ending = refl

  respond-taken :
      (i : ℕ) (bytes : List ℕ) → taken k (gave_back d (pick d.avail i) bytes) ≡ taken k d
  unfolding gave_back taken tally Picked
  respond-taken i bytes = elim (Option-cases (pick d.avail i)) [
    | inl h ↦ rw h refl
    | inr ((r, rest), h) ↦
        let (l, t) = pick_lem d.avail i (r, rest) h in
        rw h (
          omega
            (arith, t cmd_of k, tally-append cmd_of k d.used (record r { resp_buf = bytes } ∷ [])))
  ]

is_queued-false : (z : ℤ) → z ≢ eiocbqueued → is_queued z ≡ false
unfolding is_queued
is_queued-false (pos n) h = refl
is_queued-false (negsuc n) h = elim (Bool-cases (n == 528)) [
  | inl e ↦ absurd (h (ap negsuc ((==_iff n 528).0 e)))
  | inr e ↦ e
]

refused-accepts :
    (d : Device) (a : Answers) (after : Issued)
    → IsRefused d a after
    → a.xa ≢ eiocbqueued
    → a.added ≢ eiocbqueued
    → is_queued after.1 ≡ false
unfolding IsRefused is_queued
refused-accepts d a (d', ret) (s, inl e) x y = rw e refl
refused-accepts d a (d', ret) (s, inr (inl e)) x y = rw e refl
refused-accepts d a (d', ret) (s, inr (inr (inl e))) x y = rw e (is_queued-false a.xa x)
refused-accepts d a (d', ret) (s, inr (inr (inr e))) x y = rw e (is_queued-false a.added y)

module _ (k : ℕ) (d : Device) (cmd : ℕ) (u : CmdReq) (a : Answers) (after : Issued) where
  abbrev gains : ℕ
  gains = if is_queued after.1 then (if cmd == k then 1 else 0) else 0

  refused-taken :
      IsRefused d a after
      → a.xa ≢ eiocbqueued
      → a.added ≢ eiocbqueued
      → taken k after.0 ≡ taken k d + gains
  unfolding IsRefused
  refused-taken h x y =
      ap (taken k) h.0
      ∙ (let e : taken k d ≡ taken k d + 0 = omega arith in e)
      ∙ ap (λ (b : Bool). taken k d + (if b then (if cmd == k then 1 else 0) else 0))
          (sym (refused-accepts d a after h x y))

  grown :
      (r : Request)
      → r.cmd ≡ cmd
      → taken k (record d {
        live = d.live + 3;
        pending = r.req_id ∷ d.pending;
        avail = d.avail ++ (r ∷ []);
        kicks = d.kicks + 1;
      })
        ≡ taken k d + (if cmd == k then 1 else 0)
  unfolding taken tally
  grown r c = omega (
    arith,
    tally-append cmd_of k d.avail (r ∷ []),
    ap (λ (i : ℕ). let n : ℕ = if i == k then 1 else 0 in n) c,
  )

  queued-taken : IsQueued d cmd u a after → taken k after.0 ≡ taken k d + gains
  unfolding IsQueued is_queued
  queued-taken (e, r, c, x, l, z, n, same_device) =
      ap (taken k) same_device
      ∙ grown r c
      ∙ ap (λ (i : ℤ). taken k d + (if is_queued i then (if cmd == k then 1 else 0) else 0)) (sym e)

step-taken :
    (k : ℕ) (d : Device) (e : Event) (es : List Event)
    → Behaves d (e ∷ es)
    → taken k (step d e) ≡ taken k d + accepts k d e
unfolding step Behaves accepts vq_tx_cb taken
step-taken k d (issue cmd u a) es b = elim (uring_cmd_issue-cases d cmd u a b.0 b.1) [
  | inl kept ↦ refused-taken k d cmd u a (uring_cmd_issue d cmd u a) kept b.2 b.3
  | inr queued ↦ queued-taken k d cmd u a (uring_cmd_issue d cmd u a) queued
]
step-taken k d (respond i bytes) es b = omega (arith, respond-taken k d i bytes)
step-taken k d tx_cb es b =
    let same_lists : taken k (vq_tx_cb d) ≡ taken k d = refl in omega (arith, same_lists)
step-taken k d work es b = omega (arith, work-taken k d d.worker)

run-taken :
    (k : ℕ) (d : Device) (es : List Event)
    → Behaves d es
    → taken k (run d es) ≡ taken k d + accepted k d es
unfolding run accepted
run-taken k d [] b = omega arith
run-taken k d (e ∷ es) b =
    omega (arith, step-taken k d e es b, run-taken k (step d e) es (rest-Behaves d e es b))

-- From a device whose bookkeeping holds, over any sequence of calls, firmware answers in any order,
-- interrupts and turns of the work for which the kernel's functions answer as documented: the
-- bookkeeping still holds (three blocks and one id of its own for each outstanding request), at
-- most 4096 requests are outstanding, and every command is with the firmware, given back or
-- completed as often, in all, as it was before and as calls for it have returned -EIOCBQUEUED
-- since: none is lost and none completed twice.
pub run-exact :
    (base : ℕ) (d : Device) (es : List Event)
    → Behaves d es
    → Inv base d
    → Inv base (run d es)
      × (length (run d es).avail + length (run d es).used ≤ 4096)
      × ((k : ℕ) → taken k (run d es) ≡ taken k d + accepted k d es)
run-exact base d es b inv =
    let kept = run-Inv base d es b inv in
    (kept, Inv-outstanding base (run d es) kept, λ k. run-taken k d es b)
