-- ===== src/Tests/Kernel.antt =====
-- Concrete runs of the kernel driver.
use deepspan.Common.{
  ℕ, ◌≡◌, ◌≤◌, ◌+◌, ◌⊎◌, refl, true, false, none, some, List, [], ◌∷◌, length, replicate, bit_xor,
  arith, Option,
}
use deepspan.Common.Bytes.{le32, le_value}
use deepspan.Crc32.{rounds}
use deepspan.Crc32.Serial.{serial_crc32}
use deepspan.Userlib.AsyncClient.{pos, negsuc}
use deepspan.Kernel.Shash.{digestsize, init, final, updates, digest, joined, updates-serial_crc32}
use deepspan.Kernel.Request.{CmdReq, Request, idle, ending, Device, Answers, uring_cmd_issue}
use deepspan.Kernel.Vqueue.{completion, s32, Event, issue, respond, tx_cb, work, run, pick}
use deepspan.Kernel.Unwind.{IsAllocated, IsFresh, IsRefused, IsQueued, uring_cmd_issue-cases}
use deepspan.Kernel.Drain.{erase_all, run-drain, run-stranded}
use deepspan.Kernel.Tally.{tally}
use deepspan.Kernel.Invariant.{Inv, taken}
use deepspan.Kernel.Exact.{Behaves, accepted}
use deepspan.Kernel.Taken.{run-exact}
use deepspan.Kernel.Probe.{Held, ProbeAnswers, virtio_probe, virtio_remove}
use deepspan.Kernel.Lifetime.{IsUnused, IsUndone, virtio_probe-remove}

abbrev empty : Device
empty = record {
  live = 1;
  pending = [];
  avail = [];
  used = [];
  kicks = 0;
  callbacks = true;
  scheduled = false;
  worker = idle;
  completed = [];
}

abbrev echo : CmdReq
echo = record { opcode = 1; flags = 0; data_ptr = 0; data_len = 0; timeout_ms = 0 }

abbrev grants : Answers
grants = record {
  req_fits = true;
  buf_fits = true;
  resp_fits = true;
  copied = none;
  xa = pos 1;
  added = pos 0;
}

no_bytes : {n : ℕ} → (bytes : List ℕ) → Path (Option (List ℕ)) none (some bytes) → length bytes ≡ n
no_bytes bytes e = absurd cc

uring_cmd_issue-cases_example :
    IsRefused empty grants (uring_cmd_issue empty 7 echo grants)
    ⊎ IsQueued empty 7 echo grants (uring_cmd_issue empty 7 echo grants)
unfolding IsAllocated IsFresh
uring_cmd_issue-cases_example =
    uring_cmd_issue-cases empty 7 echo grants (omega arith, omega arith, tt) no_bytes

abbrev slot : List ℕ
slot = 5 ∷ 0 ∷ 0 ∷ 0 ∷ 1 ∷ 0 ∷ 0 ∷ 0 ∷ 2 ∷ 0 ∷ 0 ∷ 0 ∷ 0 ∷ 0 ∷ 0 ∷ 0 ∷ []

-- A command comes, the firmware answers it, the interrupt runs the callback, the work completes it.
abbrev whole : List Event
whole = issue 7 echo grants ∷ respond 0 slot ∷ tx_cb ∷ work ∷ work ∷ work ∷ work ∷ []

run-exact_example :
    Inv 1 (run empty whole)
    × (length (run empty whole).avail + length (run empty whole).used ≤ 4096)
    × ((k : ℕ) → taken k (run empty whole) ≡ taken k empty + accepted k empty whole)
unfolding Behaves IsAllocated IsFresh tally
run-exact_example =
    run-exact 1 empty whole
      ((omega arith, omega arith, tt), no_bytes, λ e. absurd cc, λ e. absurd cc, tt)
      (record {
        blocks = refl;
        ids = λ k. refl;
        once = λ k. omega arith;
        size = refl;
        above = λ k l. refl;
        none_at = refl;
      })

abbrev answered : Request
answered = record { cmd = 7; req_id = 1; buf = []; buf_len = 0; resp_buf = slot; resp_len = 16 }

abbrev woken : Device
woken = record empty {
  live = 4;
  pending = 1 ∷ [];
  used = answered ∷ [];
  callbacks = false;
  scheduled = true;
}

run-drain_example : run woken (work ∷ work ∷ work ∷ work ∷ []) ≡ record woken {
  live = 1;
  pending = erase_all (answered ∷ []) (1 ∷ []);
  used = [];
  callbacks = true;
  scheduled = false;
  completed = completion answered ∷ [];
}
run-drain_example = run-drain woken refl refl

-- Its fields are those of the response slot.
completion_slot : completion answered ≡ record { cmd = 7; status = pos 5; res2 = 0x2_0000_0001 }
unfolding completion s32 le_value
completion_slot = refl

abbrev ending_work : Device
ending_work = record empty {
  live = 4;
  pending = 1 ∷ [];
  avail = answered ∷ [];
  callbacks = false;
  worker = ending;
}

run-stranded_example :
    run ending_work (respond 0 slot ∷ work ∷ replicate 100 work)
    ≡ record ending_work { avail = []; used = answered ∷ []; callbacks = true; worker = idle }
unfolding pick
run-stranded_example = run-stranded ending_work 0 100 slot answered [] refl refl refl

-- The kernel's bitwise crc32_le.
crc32_le : ℕ → List ℕ → ℕ
crc32_le crc [] = crc
crc32_le crc (b ∷ bs) = crc32_le (rounds 8 (bit_xor crc b)) bs

abbrev pieces : List (List ℕ)
pieces = (49 ∷ 50 ∷ []) ∷ [] ∷ (51 ∷ []) ∷ []

updates-serial_crc32_example :
    (final (updates crc32_le (init (record { crc = 3 })) pieces)
      ≡ le32 (serial_crc32 (49 ∷ 50 ∷ 51 ∷ [])))
    × (digest crc32_le (record { crc = 3 }) (49 ∷ 50 ∷ 51 ∷ [])
        ≡ le32 (serial_crc32 (49 ∷ 50 ∷ 51 ∷ [])))
    × (length (digest crc32_le (record { crc = 3 }) (49 ∷ 50 ∷ 51 ∷ [])) ≡ digestsize)
unfolding crc32_le joined
updates-serial_crc32_example =
    updates-serial_crc32 crc32_le (λ c. refl) (λ c b bs. refl) pieces (record { crc = 3 })
      (omega arith, (omega arith, (omega arith, tt)))

abbrev nothing_held : Held
nothing_held = record {
  blocks = 0;
  queues = 0;
  minors = [];
  cdevs = 0;
  nodes = [];
  groups = [];
  regions = 1;
  classes = 1;
  drivers = 1;
}

-- All succeeds but the sysfs groups.
abbrev probe_answers : ProbeAnswers
probe_answers = record {
  fits = true;
  find_vqs = pos 0;
  ida = pos 0;
  cdev_added = pos 0;
  created = pos 1;
  grouped = negsuc 11;
}

virtio_probe-remove_example :
    IsUndone nothing_held
      (λ minor h. virtio_remove h minor)
      (virtio_probe nothing_held probe_answers)
unfolding IsUnused IsFresh
virtio_probe-remove_example = virtio_probe-remove nothing_held probe_answers (tt, tt, tt)
