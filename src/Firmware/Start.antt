-- ===== src/Firmware/Start.antt =====
-- firmware/drivers/deepspan: hwip_sim_init of deepspan_hwip_sim.c, and the MMIO driver of
-- deepspan_hwip.c, whose registers are the hardware's.
use deepspan.Common.{
  ℕ, zero, suc, ◌+◌, ◌-◌, ◌<◌, ◌≡◌, refl, ap, ◌∙◌, Bool, true, false, ◌==◌, if◌then◌else◌, min,
  bit_and, Option, none, some, List, [], ◌∷◌, take, arith,
}
use deepspan.Shm.{Page, RegMap}
use deepspan.Plugin.{with_regs}
use deepspan.Userlib.AsyncClient.{ℤ, pos, negsuc}
use deepspan.Firmware.Driver.{SimData, irq_done, eio}

-- SHM_OPEN_RETRIES
abbrev pub shm_open_retries : ℕ
shm_open_retries = 50

-- The retry loop from attempt `i` on, `left` attempts before its end: whether shm_open gave a
-- descriptor, and how often the loop slept.
unfoldable pub open_loop : (ℕ → Bool) → ℕ → ℕ → Bool × ℕ
open_loop opens zero i = (false, i)
open_loop opens (suc left) i =
    let rest = open_loop opens left (i + 1) in if opens i then (true, i) else rest

-- The environment's name if it is set and not empty.
unfoldable pub shm_name : Option (List ℕ) → List ℕ → List ℕ
shm_name none default = default
shm_name (some []) default = default
shm_name (some (x ∷ xs)) default = x ∷ xs

-- snprintf into 80 bytes, the last for the NUL.
unfoldable pub shm_path : List ℕ → List ℕ
shm_path name = take 79 (47 ∷ name)

-- Open descriptors and mappings of the process.
pub record Process : Type 0 where
  pub fds : ℕ
  pub maps : ℕ

-- The return value, the driver's data, and the page.
pub record Started : Type 0 where
  pub process : Process
  pub ret : ℤ
  pub sim : SimData
  pub page : Option Page

unfoldable pub close : Process → Process
close k = record k { fds = k.fds - 1 }

-- From the mmap on; the descriptor is closed either way.
unfoldable pub init_map : Process → SimData → Option Page → Started
init_map k d none = record {
  process = close k;
  ret = eio;
  sim = record d { mapped = false };
  page = none;
}
init_map k d (some p) = record {
  process = close (record k { maps = k.maps + 1 });
  ret = pos 0;
  sim = record d { mapped = true; cmd_done = 0 };
  page = some (with_regs p (record p.regs { irq_enable = irq_done }));
}

unfoldable pub init_open : Process → SimData → Option Page → Bool × ℕ → Started
init_open k d mapped (false, sleeps) = record { process = k; ret = eio; sim = d; page = none }
init_open k d mapped (true, sleeps) = init_map (record k { fds = k.fds + 1 }) d mapped

-- `opens` is what shm_open answers at each attempt, `mapped` what mmap does.
unfoldable pub hwip_sim_init : Process → SimData → (ℕ → Bool) → Option Page → Started
hwip_sim_init k d opens mapped = init_open k d mapped (open_loop opens shm_open_retries 0)

-- The loop ends with a descriptor at the first attempt that gives one, having slept once for each
-- attempt before it.
pub open_loop-first :
    (opens : ℕ → Bool) (j left i : ℕ)
    → j < left
    → ((k : ℕ) → k < j → opens (i + k) ≡ false)
    → opens (i + j) ≡ true
    → open_loop opens left i ≡ (true, i + j)
unfolding open_loop
open_loop-first opens j zero i h before e = absurd (omega arith)
open_loop-first opens zero (suc left) i h before e =
    let here : i + 0 ≡ i = omega arith in
    let now : opens i ≡ true = ap opens (omega arith) ∙ e in rw (here, now) refl
open_loop-first opens (suc j) (suc left) i h before e =
    let now : opens i ≡ false = ap opens (omega arith) ∙ before 0 (omega arith) in
    let rest : open_loop opens left (i + 1) ≡ (true, i + 1 + j) =
      open_loop-first opens j left (i + 1) (omega arith)
        (λ k l. ap opens (omega arith) ∙ before (suc k) (omega arith))
        (ap opens (omega arith) ∙ e) in
    rw (now, rest) (ap (λ (n : ℕ). (true, n)) (omega arith))

-- deepspan_hwip_isr: `acked` is what the hardware makes of a 1 written to IRQ_STATUS.
unfoldable pub hwip_isr : (RegMap → RegMap) → RegMap → SimData → RegMap × SimData
hwip_isr acked regs d = if bit_and regs.irq_status irq_done == 0 then (regs, d) else (
  acked regs,
  record d {
    last_status = regs.result_status;
    last_result0 = regs.result_data0;
    last_result1 = regs.result_data1;
    cmd_done = min 1 (d.cmd_done + 1);
  },
)

-- deepspan_hwip_init
unfoldable pub hwip_init : RegMap → SimData → RegMap × SimData
hwip_init regs d = (record regs { irq_enable = irq_done }, record d { cmd_done = 0 })

abbrev pub enotsup : ℤ
enotsup = negsuc 94

-- deepspan_hwip_set_dma of deepspan_hwip.c
unfoldable pub hwip_set_dma : List ℕ → ℤ
hwip_set_dma src = enotsup
