-- ===== src/Firmware/Sticky.antt =====
-- IRQ_DONE in IRQ_STATUS, over the steps of the hw-model, the poll thread and submit_cmd.
use deepspan.Common.{
  ℕ, ◌≡◌, refl, Bool, true, false, ◌==◌, if◌then◌else◌, bit_and, bit_or, Option, none, some, List,
  [], ◌∷◌, arith, Bool-cases, inl, inr,
}
use deepspan.Common.Bits.{and_one, or_one}
use deepspan.Shm.{Page}
use deepspan.Shm.Ctrl.{has_start}
use deepspan.HwModel.{
  HwServer, HwPc, CmdHandler, Reply, go, exec, hw_step, answer, check_running, load_ctrl,
  read_opcode, read_arg0, read_arg1, handling, write_data0, write_data1, write_status, write_count,
  write_last_opcode, write_last_status, clearing, set_ready, raise_bits, raise_event, exited,
  crashed,
}
use deepspan.Plugin.{Cmd}
use deepspan.Firmware.Driver.{
  SimData, PollPc, SubmitPc, poll_irq, poll_status, poll_result0, poll_result1, poll_clear,
  poll_give, entering, put_opcode, put_arg0, put_arg1, put_flags, starting, waiting, taken,
  returned, poll_step, submit_step, System, Turn, hw_turn, poll_turn, submit_turn, timeout_turn,
  step, run,
}

-- The poll thread sees an interrupt.
unfoldable pub IsRaised : Page → Type 0
IsRaised p = (bit_and p.regs.irq_status 1 == 0) ≡ false

pub bit_or-IsRaised : (n : ℕ) → (bit_and (bit_or n 1) 1 == 0) ≡ false
bit_or-IsRaised n = ground (arith, and_one (bit_or n 1), or_one n)

module _ (s : HwServer) (v : IsRaised s.page) where
  answer-IsRaised : (op : ℕ) (r : Option Reply) → IsRaised (answer s op r).page
  unfolding answer
  answer-IsRaised op none = v
  answer-IsRaised op (some r) = v

  go-IsRaised : (b : Bool) (pc pc' : HwPc) → IsRaised (if b then go s pc else go s pc').page
  go-IsRaised true pc pc' = v
  go-IsRaised false pc pc' = v

  exec-IsRaised : (handler : CmdHandler) (pc : HwPc) → IsRaised (exec handler pc s).page
  unfolding exec IsRaised
  exec-IsRaised handler check_running = go-IsRaised s.running load_ctrl exited
  exec-IsRaised handler load_ctrl =
      go-IsRaised (has_start s.page.regs.ctrl) read_opcode check_running
  exec-IsRaised handler (handling op a0 a1) = answer-IsRaised op (handler s.page.dma op a0 a1)
  exec-IsRaised handler raise_bits = bit_or-IsRaised s.page.regs.irq_status
  exec-IsRaised handler read_opcode = v
  exec-IsRaised handler (read_arg0 op) = v
  exec-IsRaised handler (read_arg1 op a0) = v
  exec-IsRaised handler (write_data0 op r) = v
  exec-IsRaised handler (write_data1 op r) = v
  exec-IsRaised handler (write_status op r) = v
  exec-IsRaised handler (write_count op r) = v
  exec-IsRaised handler (write_last_opcode op r) = v
  exec-IsRaised handler (write_last_status r) = v
  exec-IsRaised handler clearing = v
  exec-IsRaised handler set_ready = v
  exec-IsRaised handler raise_event = v
  exec-IsRaised handler exited = v
  exec-IsRaised handler crashed = v

module _ (d : SimData) (p : Page) (v : IsRaised p) where
  poll-IsRaised : (pc : PollPc) → IsRaised (poll_step pc d p).2
  unfolding poll_step IsRaised
  poll-IsRaised poll_irq = rw v v
  poll-IsRaised poll_status = v
  poll-IsRaised poll_result0 = v
  poll-IsRaised poll_result1 = v
  poll-IsRaised poll_clear = refl
  poll-IsRaised poll_give = v

  submit-IsRaised : (c : Cmd) (pc : SubmitPc) → IsRaised (submit_step c pc d p).2
  unfolding submit_step IsRaised
  submit-IsRaised c entering = v
  submit-IsRaised c put_opcode = v
  submit-IsRaised c put_arg0 = v
  submit-IsRaised c put_arg1 = v
  submit-IsRaised c put_flags = v
  submit-IsRaised c starting = v
  submit-IsRaised c waiting = elim (Bool-cases (d.cmd_done == 0)) [
    | inl e ↦ rw e v
    | inr e ↦ rw e v
  ]
  submit-IsRaised c taken = v
  submit-IsRaised c (returned r) = v

module _ (handler : CmdHandler) (c : Cmd) where
  step-IsRaised :
      (s : System) (t : Turn) → IsRaised s.hw.page → IsRaised (step handler c s t).hw.page
  unfolding step hw_step
  step-IsRaised s hw_turn v = exec-IsRaised s.hw v handler s.hw.pc
  step-IsRaised s poll_turn v = poll-IsRaised s.sim s.hw.page v s.poll
  step-IsRaised s submit_turn v = submit-IsRaised s.sim s.hw.page v c s.submit
  step-IsRaised s timeout_turn v = v

  -- Once IRQ_DONE is set it stays set, whatever runs.
  pub run-IsRaised :
      (s : System) (ts : List Turn) → IsRaised s.hw.page → IsRaised (run handler c s ts).hw.page
  unfolding run
  run-IsRaised s [] v = v
  run-IsRaised s (t ∷ ts) v = run-IsRaised (step handler c s t) ts (step-IsRaised s t v)
