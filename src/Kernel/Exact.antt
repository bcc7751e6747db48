-- ===== src/Kernel/Exact.antt =====
-- The invariant of the driver's bookkeeping, over every sequence of calls, interrupts, turns of the
-- work and answers of the firmware.
use deepspan.Common.{
  ℕ, ◌+◌, ◌≡◌, ◌≢◌, inl, inr, refl, sym, subst, Bool, true, false, ◌==◌, if◌then◌else◌, some, List,
  [], ◌∷◌, length,
}
use deepspan.Userlib.AsyncClient.{ℤ, pos, negsuc}
use deepspan.Kernel.Request.{
  Request, Worker, idle, draining, ending, Device, eiocbqueued, uring_cmd_issue,
}
use deepspan.Kernel.Vqueue.{
  get_buf, tx_work_step, vq_tx_cb, Event, issue, respond, tx_cb, work, step, run,
}
use deepspan.Kernel.Invariant.{Inv, queued-Inv, respond-Inv, complete-Inv}
use deepspan.Kernel.Unwind.{IsAllocated, IsRefused, uring_cmd_issue-cases}

-- What the kernel's functions promise of their answers to the calls in a sequence of events.
unfoldable pub Behaves : Device → List Event → Type 0
Behaves d [] = Unit
Behaves d (issue cmd u a ∷ es) =
    IsAllocated a.xa d.pending
    × ((bytes : List ℕ) → a.copied ≡ some bytes → length bytes ≡ u.data_len)
    × (a.xa ≢ eiocbqueued)
    × (a.added ≢ eiocbqueued)
    × Behaves (step d (issue cmd u a)) es
Behaves d (e ∷ es) = Behaves (step d e) es

-- The events whose call returns -EIOCBQUEUED to the command `k`.
unfoldable pub is_queued : ℤ → Bool
is_queued (pos n) = false
is_queued (negsuc n) = n == 528

unfoldable pub accepts : ℕ → Device → Event → ℕ
accepts k d (issue cmd u a) =
    if is_queued (uring_cmd_issue d cmd u a).1 then (if cmd == k then 1 else 0) else 0
accepts k d e = 0

unfoldable pub accepted : ℕ → Device → List Event → ℕ
accepted k d [] = 0
accepted k d (e ∷ es) = accepts k d e + accepted k (step d e) es

module _ (base : ℕ) (d : Device) (inv : Inv base d) where
  -- The other fields do not matter.
  apart :
      (callbacks scheduled : Bool) (w : Worker)
      → Inv base (record d { callbacks = callbacks; scheduled = scheduled; worker = w })
  apart callbacks scheduled w = record {
    blocks = inv.blocks;
    ids = inv.ids;
    once = inv.once;
    size = inv.size;
    above = inv.above;
    none_at = inv.none_at;
  }

  get_buf-Inv : (rs : List Request) → d.used ≡ rs → Inv base (get_buf d rs)
  unfolding get_buf
  get_buf-Inv [] e = apart d.callbacks d.scheduled ending
  get_buf-Inv (r ∷ rest) e =
      complete-Inv base d r rest (subst (λ us. Inv base (record d { used = us })) e inv)

  begin-Inv :
      (b : Bool) → Inv base (if b then record d { scheduled = false; worker = draining } else d)
  begin-Inv true = apart d.callbacks false draining
  begin-Inv false = inv

  work-Inv : (w : Worker) → Inv base (tx_work_step d w)
  unfolding tx_work_step
  work-Inv idle = begin-Inv d.scheduled
  work-Inv draining = get_buf-Inv d.used refl
  work-Inv ending = apart true d.scheduled idle

  step-Inv : (e : Event) (es : List Event) → Behaves d (e ∷ es) → Inv base (step d e)
  unfolding step Behaves vq_tx_cb IsRefused
  step-Inv (issue cmd u a) es b = elim (uring_cmd_issue-cases d cmd u a b.0 b.1) [
    | inl kept ↦ subst (Inv base) (sym kept.0) inv
    | inr queued ↦ queued-Inv base d cmd u a (uring_cmd_issue d cmd u a) b.0 queued inv
  ]
  step-Inv (respond i bytes) es b = respond-Inv base d i bytes inv
  step-Inv tx_cb es b = apart false true d.worker
  step-Inv work es b = work-Inv d.worker

pub rest-Behaves :
    (d : Device) (e : Event) (es : List Event) → Behaves d (e ∷ es) → Behaves (step d e) es
unfolding Behaves
rest-Behaves d (issue cmd u a) es b = b.4
rest-Behaves d (respond i bytes) es b = b
rest-Behaves d tx_cb es b = b
rest-Behaves d work es b = b

pub run-Inv :
    (base : ℕ) (d : Device) (es : List Event) → Behaves d es → Inv base d → Inv base (run d es)
unfolding run
run-Inv base d [] b inv = inv
run-Inv base d (e ∷ es) b inv =
    run-Inv base (step d e) es (rest-Behaves d e es b) (step-Inv base d inv e es b)
