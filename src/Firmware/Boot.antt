-- ===== src/Firmware/Boot.antt =====
-- firmware/app/src/main.cpp up to its first test, on what hwip_sim_init of deepspan_hwip_sim.c has
-- made of the hw-model's page. That device_is_ready() is whether the driver's init returned 0 is
-- Zephyr's.
use deepspan.Common.{
  ℕ, zero, suc, ◌+◌, ◌<◌, ◌≡◌, refl, ap, ◌∙◌, Bool, true, false, Option, none, some, arith,
}
use deepspan.Shm.{Page}
use deepspan.Userlib.AsyncClient.{ℤ, pos, negsuc}
use deepspan.Firmware.Driver.{SimData, version}
use deepspan.Firmware.Start.{
  shm_open_retries, open_loop, open_loop-first, Process, Started, init_open, init_map, close,
  hwip_sim_init,
}

-- What `main` does next: it returns, or runs its tests after it has logged the version.
pub data Boot : Type 0 where
  exits : ℤ → Boot
  tests : ℕ → Boot

unfoldable pub device_is_ready : Started → Bool
device_is_ready s = elim s.ret [ pos zero ↦ true | _ ↦ false ]

unfoldable pub boot : Started → Boot
unfolding device_is_ready
boot s = elim (device_is_ready s) [ true ↦ tests (version s.page) | false ↦ exits (negsuc 0) ]

open_loop-never :
    (opens : ℕ → Bool) (left i : ℕ)
    → ((k : ℕ) → k < left → opens (i + k) ≡ false)
    → open_loop opens left i ≡ (false, i + left)
unfolding open_loop
open_loop-never opens zero i never = ap (λ (n : ℕ). (false, n)) (omega arith)
open_loop-never opens (suc left) i never =
    let now : opens i ≡ false = ap opens (omega arith) ∙ never 0 (omega arith) in
    let rest : open_loop opens left (i + 1) ≡ (false, i + 1 + left) =
      open_loop-never opens left (i + 1)
        (λ k l. ap opens (omega arith) ∙ never (suc k) (omega arith)) in
    rw (now, rest) (ap (λ (n : ℕ). (false, n)) (omega arith))

-- Where no attempt of the fifty finds the page, the app ends with -1 and the process has what it
-- had. Where one does and the mapping fails, the same, the descriptor being closed again. Where the
-- mapping succeeds, the app runs its tests and logs the page's version, with one mapping more and no
-- descriptor.
pub boot-cases :
    (k : Process) (d : SimData) (opens : ℕ → Bool)
    → (((i : ℕ) → i < shm_open_retries → opens i ≡ false)
        → (mapped : Option Page)
        → let s = hwip_sim_init k d opens mapped in (boot s ≡ exits (negsuc 0)) × (s.process ≡ k))
      × ((j : ℕ)
          → j < shm_open_retries
          → ((i : ℕ) → i < j → opens i ≡ false)
          → opens j ≡ true
          → (let s = hwip_sim_init k d opens none in (boot s ≡ exits (negsuc 0)) × (s.process ≡ k))
            × ((p : Page)
                → let s = hwip_sim_init k d opens (some p) in
                  (boot s ≡ tests p.regs.version) × (s.process ≡ record k { maps = k.maps + 1 })))
unfolding hwip_sim_init boot device_is_ready init_open init_map close version
boot-cases k d opens = (
  λ never mapped.
      let e : open_loop opens shm_open_retries 0 ≡ (false, 50) =
        open_loop-never opens shm_open_retries 0 (λ i l. ap opens (omega arith) ∙ never i l) in
      rw e (refl, refl),
  λ j l before now.
      let e : open_loop opens shm_open_retries 0 ≡ (true, 0 + j) =
        open_loop-first opens j shm_open_retries 0 l (λ i m. ap opens (omega arith) ∙ before i m)
          (ap opens (omega arith) ∙ now) in
      (rw e (ground arith), λ p. rw e (ground arith)),
)
