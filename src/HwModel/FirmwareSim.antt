-- ===== src/HwModel/FirmwareSim.antt =====
-- sim/hw-model/src/firmware_sim.cpp: a process that plays the firmware and sends echo commands.
-- Its main loop is taken apart into its accesses; `going` is g_running, which a signal clears.
pub mod Answers
pub mod Crc32
pub mod Ends
pub mod Main
use deepspan.Common.{
  ℕ, zero, suc, ◌+◌, ◌/◌, ◌%◌, ◌^◌, ◌≡◌, ap, ◌∙◌, Bool, true, false, ltb, if◌then◌else◌, bit_and,
  bit_or, Option, none, some, List, ◌∷◌, arith,
}
use deepspan.Common.Bits.{and_mask, or_disjoint}
use deepspan.Shm.{Page, ready_bit}
use deepspan.Shm.Ctrl.{has_start, set_start}
use deepspan.Plugin.{Cmd, with_regs}

-- Command number `n`; 0x01 is ECHO of the accelerator.
unfoldable pub fw_cmd : ℕ → Cmd
fw_cmd n = record {
  opcode = 1;
  arg0 = bit_or 0xdead_0000 (bit_and n 0xffff % 2 ^ 32);
  arg1 = n % 2 ^ 32;
}

abbrev pub max_polls : ℕ
max_polls = 2000

-- The status and the two data registers.
pub record FwResult : Type 0 where
  pub status : ℕ
  pub data0 : ℕ
  pub data1 : ℕ

-- Where the loop stands. `polling t` is round `t` of the wait; `counting` has the result, none
-- after a timeout.
pub data FwPc : Type 0 where
  looping put_opcode put_arg0 put_arg1 starting : FwPc
  polling : ℕ → FwPc
  read_status : FwPc
  read_data0 : ℕ → FwPc
  read_data1 : ℕ → ℕ → FwPc
  counting : Option FwResult → FwPc
  storing exited : FwPc

pub record FwSim : Type 0 where
  pub pc : FwPc
  pub going : Bool
  pub fw_count : ℕ
  pub results : List (Option FwResult)

abbrev pub at : FwSim → FwPc → FwSim
at s pc = record s { pc = pc }

unfoldable pub fw_exec : FwPc → FwSim → Page → FwSim × Page
fw_exec looping s p = (if s.going then at s put_opcode else at s exited, p)
fw_exec put_opcode s p =
    (at s put_arg0, with_regs p (record p.regs { cmd_opcode = (fw_cmd s.fw_count).opcode }))
fw_exec put_arg0 s p =
    (at s put_arg1, with_regs p (record p.regs { cmd_arg0 = (fw_cmd s.fw_count).arg0 }))
fw_exec put_arg1 s p =
    (at s starting, with_regs p (record p.regs { cmd_arg1 = (fw_cmd s.fw_count).arg1 }))
fw_exec starting s p =
    (at s (polling 0), with_regs p (record p.regs { ctrl = set_start p.regs.ctrl }))
fw_exec (polling t) s p =
    if ltb t max_polls
    then (if s.going
        then (if has_start p.regs.ctrl then (at s (polling (t + 1)), p) else (at s read_status, p))
        else (at s (counting none), p))
    else (at s (counting none), p)
fw_exec read_status s p = (at s (read_data0 p.regs.result_status), p)
fw_exec (read_data0 status) s p = (at s (read_data1 status p.regs.result_data0), p)
fw_exec (read_data1 status data0) s p = (
  at s (counting (some (record { status = status; data0 = data0; data1 = p.regs.result_data1 }))),
  p,
)
fw_exec (counting r) s p =
    (record s { pc = storing; fw_count = (s.fw_count + 1) % 2 ^ 64; results = r ∷ s.results }, p)
fw_exec storing s p =
    (at s looping, record p { stats = record p.stats { fw_cmd_count = s.fw_count } })
fw_exec exited s p = (s, p)

unfoldable pub fw_step : FwSim → Page → FwSim × Page
fw_step s p = fw_exec s.pc s p

-- The loop that waits for shm_open, 50 attempts while `going` stays set: whether it opened.
unfoldable pub open_loop : (ℕ → Bool) → (ℕ → Bool) → ℕ → ℕ → Bool
open_loop opens going zero i = false
open_loop opens going (suc left) i =
    let rest = open_loop opens going left (i + 1) in
    if going i then (if opens i then true else rest) else false

-- The loop that waits for STATUS.READY, on what the register holds at each round; it only waits.
unfoldable pub ready_loop : (ℕ → ℕ) → (ℕ → Bool) → ℕ → ℕ → Bool
ready_loop status going zero i = false
ready_loop status going (suc left) i =
    let rest = ready_loop status going left (i + 1) in
    if going i then (if ltb 0 (bit_and (status i) ready_bit) then true else rest) else false

-- The echo commands are told apart by their low halves, and marked 0xDEAD in the high one.
pub fw_cmd-arg0 :
    (n : ℕ) → ((fw_cmd n).arg0 / 2 ^ 16 ≡ 0xdead) × ((fw_cmd n).arg0 % 2 ^ 16 ≡ n % 2 ^ 16)
unfolding fw_cmd
fw_cmd-arg0 n =
    let low : bit_and n 0xffff ≡ n % 2 ^ 16 = and_mask 16 n in
    let whole : bit_or 0xdead_0000 (bit_and n 0xffff % 2 ^ 32) ≡ 0xdead_0000 + n % 2 ^ 16 =
      ap (λ (t : ℕ). bit_or 0xdead_0000 (t % 2 ^ 32)) low
      ∙ ap (bit_or 0xdead_0000) (let e : n % 2 ^ 16 % 2 ^ 32 ≡ n % 2 ^ 16 = omega arith in e)
      ∙ or_disjoint 16 0xdead (n % 2 ^ 16) (omega arith) in
    (omega (arith, whole), omega (arith, whole))
