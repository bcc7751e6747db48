-- ===== src/Firmware/Safety.antt =====
-- What the first call of submit_cmd on a hw-model at rest returns, over every interleaving.
use deepspan.Common.{
  ℕ, ◌^◌, ◌<◌, ◌≡◌, refl, sym, subst, ◌⊎◌, true, false, ◌==◌, bit_and, some, List, [], ◌∷◌, arith,
}
use deepspan.Shm.{Page}
use deepspan.Shm.Ctrl.{
  has_start, set_start, has_start-set_start, has_start-clear_start, set_start-lt, clear_start-lt,
}
use deepspan.HwModel.{
  HwServer, HwPc, CmdHandler, check_running, load_ctrl, read_opcode, read_arg0, read_arg1, handling,
  write_data0, write_data1, write_status, write_count, write_last_opcode, write_last_status,
  clearing, set_ready, raise_bits, raise_event, exited, crashed, hw_step, exec,
}
use deepspan.Plugin.{Cmd, with_regs}
use deepspan.Plugin.Safety.{Idle, reply, Answered, Serving, Holds}
use deepspan.Userlib.AsyncClient.{ℤ, pos, negsuc}
use deepspan.Firmware.Driver.{
  Submitted, SimData, PollPc, SubmitPc, poll_irq, poll_status, poll_result0, poll_result1,
  poll_clear, poll_give, entering, put_opcode, put_arg0, put_arg1, put_flags, starting, waiting,
  taken, returned, failed, time_out, poll_step, submit_step, System, Turn, hw_turn, poll_turn,
  submit_turn, timeout_turn, step, run,
}

-- The hw-model has no command and no interrupt to raise.
abbrev pub Rest : HwPc → Type 0
Rest check_running = Unit
Rest load_ctrl = Unit
Rest exited = Unit
Rest _ = ⊥

-- It is not about to raise one.
abbrev Silent : HwPc → Type 0
Silent set_ready = ⊥
Silent raise_bits = ⊥
Silent raise_event = ⊥
Silent _ = Unit

abbrev Asleep : PollPc → Type 0
Asleep poll_irq = Unit
Asleep _ = ⊥

-- No interrupt is seen and no semaphore given.
abbrev Unseen : PollPc → SimData → Page → Type 0
Unseen poll d p = Asleep poll × (d.cmd_done ≡ 0) × ((bit_and p.regs.irq_status 1 == 0) ≡ true)

abbrev AllLast : SimData → Page → Type 0
AllLast d p =
    (d.last_status ≡ p.regs.result_status)
    × (d.last_result0 ≡ p.regs.result_data0)
    × (d.last_result1 ≡ p.regs.result_data1)

-- The poll thread has read what it is to have read.
abbrev Polled : PollPc → SimData → Page → Type 0
Polled poll_irq d p = Unit
Polled poll_status d p = Unit
Polled poll_result0 d p = d.last_status ≡ p.regs.result_status
Polled poll_result1 d p =
    (d.last_status ≡ p.regs.result_status) × (d.last_result0 ≡ p.regs.result_data0)
Polled poll_clear d p = AllLast d p
Polled poll_give d p = AllLast d p

module _ (handler : CmdHandler) (c : Cmd) (dma : List ℕ) where
  abbrev IsAnswer : ℤ → Submitted → Type 0
  IsAnswer (pos n) x =
      reply handler c dma ≡ some (record { status = x.status; data0 = x.data0; data1 = x.data1 })
  IsAnswer (negsuc n) x = Unit

  abbrev Before : PollPc → SimData → HwPc → Page → Type 0
  Before poll d hw p = (has_start p.regs.ctrl ≡ false) × Rest hw × Unseen poll d p

  abbrev After : PollPc → SimData → HwPc → Page → Type 0
  After poll d hw p = Idle hw p × Answered handler c dma p × Polled poll d p

  abbrev Agrees : SubmitPc → PollPc → SimData → HwPc → Page → Type 0
  Agrees entering poll d hw p = Before poll d hw p
  Agrees put_opcode poll d hw p = Before poll d hw p
  Agrees put_arg0 poll d hw p = Before poll d hw p × (p.regs.cmd_opcode ≡ c.opcode)
  Agrees put_arg1 poll d hw p =
      Before poll d hw p × (p.regs.cmd_opcode ≡ c.opcode) × (p.regs.cmd_arg0 ≡ c.arg0)
  Agrees put_flags poll d hw p = Before poll d hw p × Holds handler c dma p
  Agrees starting poll d hw p = Before poll d hw p × Holds handler c dma p
  Agrees waiting poll d hw p =
      ((has_start p.regs.ctrl ≡ true)
        × Holds handler c dma p
        × Serving handler c dma hw p
        × Silent hw
        × Unseen poll d p)
      ⊎ (After poll d hw p × ((d.cmd_done ≡ 0) ⊎ AllLast d p))
  Agrees taken poll d hw p = After poll d hw p × AllLast d p
  Agrees (returned x) poll d hw p = IsAnswer x.ret x

  record Inv (submit : SubmitPc) (poll : PollPc) (d : SimData) (hw : HwPc) (p : Page) : Type 0 where
    word : p.regs.ctrl < 2 ^ 32
    bytes : p.dma ≡ dma
    agrees : Agrees submit poll d hw p

  Rest-Serving : (hw : HwPc) (p : Page) → Rest hw → Serving handler c dma hw p × Silent hw
  Rest-Serving check_running p q = (tt, tt)
  Rest-Serving load_ctrl p q = (tt, tt)
  Rest-Serving exited p q = (tt, tt)
  Rest-Serving _ p q = ground arith

  submit_step-Inv :
      (submit : SubmitPc) (poll : PollPc) (d : SimData) (hw : HwPc) (p : Page)
      → Inv submit poll d hw p
      → let (submit', d', p') = submit_step c submit d p in Inv submit' poll d' hw p'
  unfolding submit_step failed
  submit_step-Inv entering poll d hw p v = ground arith
  submit_step-Inv put_opcode poll d hw p v = ground arith
  submit_step-Inv put_arg0 poll d hw p v = ground arith
  submit_step-Inv put_arg1 poll d hw p v = ground arith
  submit_step-Inv put_flags poll d hw p v = ground arith
  submit_step-Inv starting poll d hw p v = ground (
    arith,
    has_start-set_start p.regs.ctrl,
    set_start-lt p.regs.ctrl,
    Rest-Serving hw (with_regs p (record p.regs { ctrl = set_start p.regs.ctrl })),
  )
  submit_step-Inv waiting poll d hw p v = ground arith
  submit_step-Inv taken poll d hw p v = ground arith
  submit_step-Inv (returned x) poll d hw p v = v

  poll_step-Inv :
      (poll : PollPc) (submit : SubmitPc) (d : SimData) (hw : HwPc) (p : Page)
      → Inv submit poll d hw p
      → let (poll', d', p') = poll_step poll d p in Inv submit poll' d' hw p'
  unfolding poll_step
  poll_step-Inv poll_irq submit d hw p v = ground arith
  poll_step-Inv poll_status submit d hw p v = ground arith
  poll_step-Inv poll_result0 submit d hw p v = ground arith
  poll_step-Inv poll_result1 submit d hw p v = ground arith
  poll_step-Inv poll_clear submit d hw p v = ground arith
  poll_step-Inv poll_give submit d hw p v = ground arith

  exec-Inv :
      (hw : HwPc) (submit : SubmitPc) (poll : PollPc) (d : SimData) (s : HwServer)
      → Inv submit poll d hw s.page
      → Inv submit poll d (exec handler hw s).pc (exec handler hw s).page
  unfolding exec
  exec-Inv check_running submit poll d s v = ground arith
  exec-Inv load_ctrl submit poll d s v = ground arith
  exec-Inv read_opcode submit poll d s v = ground arith
  exec-Inv (read_arg0 op) submit poll d s v = ground arith
  exec-Inv (read_arg1 op a0) submit poll d s v = ground arith
  exec-Inv (handling op a0 a1) submit poll d s v = ground arith
  exec-Inv (write_data0 op r) submit poll d s v = ground arith
  exec-Inv (write_data1 op r) submit poll d s v = ground arith
  exec-Inv (write_status op r) submit poll d s v = ground arith
  exec-Inv (write_count op r) submit poll d s v = ground arith
  exec-Inv (write_last_opcode op r) submit poll d s v = ground arith
  exec-Inv (write_last_status r) submit poll d s v = ground arith
  exec-Inv clearing submit poll d s v =
      ground (arith, has_start-clear_start s.page.regs.ctrl, clear_start-lt s.page.regs.ctrl)
  exec-Inv set_ready submit poll d s v = ground arith
  exec-Inv raise_bits submit poll d s v = ground arith
  exec-Inv raise_event submit poll d s v = ground arith
  exec-Inv exited submit poll d s v = ground arith
  exec-Inv crashed submit poll d s v = ground arith

  time_out-Inv :
      (submit : SubmitPc) (poll : PollPc) (d : SimData) (hw : HwPc) (p : Page)
      → Inv submit poll d hw p
      → Inv (time_out submit) poll d hw p
  unfolding time_out failed
  time_out-Inv waiting poll d hw p v = record { word = v.word; bytes = v.bytes; agrees = tt }
  time_out-Inv entering poll d hw p v = v
  time_out-Inv put_opcode poll d hw p v = v
  time_out-Inv put_arg0 poll d hw p v = v
  time_out-Inv put_arg1 poll d hw p v = v
  time_out-Inv put_flags poll d hw p v = v
  time_out-Inv starting poll d hw p v = v
  time_out-Inv taken poll d hw p v = v
  time_out-Inv (returned x) poll d hw p v = v

  step-Inv :
      (s : System) (t : Turn)
      → Inv s.submit s.poll s.sim s.hw.pc s.hw.page
      → let s' = step handler c s t in Inv s'.submit s'.poll s'.sim s'.hw.pc s'.hw.page
  unfolding step hw_step time_out failed
  step-Inv s hw_turn v = exec-Inv s.hw.pc s.submit s.poll s.sim s.hw v
  step-Inv s poll_turn v = poll_step-Inv s.poll s.submit s.sim s.hw.pc s.hw.page v
  step-Inv s submit_turn v = submit_step-Inv s.submit s.poll s.sim s.hw.pc s.hw.page v
  step-Inv s timeout_turn v = time_out-Inv s.submit s.poll s.sim s.hw.pc s.hw.page v

  run-Inv :
      (ts : List Turn) (s : System)
      → Inv s.submit s.poll s.sim s.hw.pc s.hw.page
      → let s' = run handler c s ts in Inv s'.submit s'.poll s'.sim s'.hw.pc s'.hw.page
  unfolding run
  run-Inv [] s v = v
  run-Inv (t ∷ ts) s v = run-Inv ts (step handler c s t) (step-Inv s t v)

-- The first call of submit_cmd is about to begin: the hw-model looks for a command, IRQ_DONE is
-- clear and the semaphore is not given.
pub record Begins (s : System) : Type 0 where
  pub enters : s.submit ≡ entering
  pub polls : s.poll ≡ poll_irq
  pub empty : s.sim.cmd_done ≡ 0
  pub clear : (bit_and s.hw.page.regs.irq_status 1 == 0) ≡ true
  pub stopped : has_start s.hw.page.regs.ctrl ≡ false
  pub rests : Rest s.hw.pc
  pub word : s.hw.page.regs.ctrl < 2 ^ 32

Begins-Inv :
    (handler : CmdHandler) (c : Cmd) (s : System)
    → Begins s
    → Inv handler c s.hw.page.dma s.submit s.poll s.sim s.hw.pc s.hw.page
Begins-Inv handler c s b = record {
  word = b.word;
  bytes = refl;
  agrees =
      subst (λ pc. Agrees handler c s.hw.page.dma pc s.poll s.sim s.hw.pc s.hw.page) (sym b.enters)
        (b.stopped, b.rests, (subst Asleep (sym b.polls) tt, b.empty, b.clear));
}

-- Whatever the interleaving of the hw-model, the poll thread, the call and its timeout: if the
-- first call of submit_cmd, begun with the hw-model at rest, IRQ_DONE clear and the semaphore not
-- given, returns 0, its three results are what the handler answers to this command on the DMA
-- bytes that were in the page at the beginning.
pub run_answers :
    (handler : CmdHandler) (c : Cmd) (s : System) (ts : List Turn) (x : Submitted)
    → Begins s
    → (run handler c s ts).submit ≡ returned x
    → x.ret ≡ pos 0
    → handler s.hw.page.dma c.opcode c.arg0 c.arg1
      ≡ some (record { status = x.status; data0 = x.data0; data1 = x.data1 })
run_answers handler c s ts x b e zero_ret =
    let after = run handler c s ts in
    let v = run-Inv handler c s.hw.page.dma ts s (Begins-Inv handler c s b) in
    let a =
      subst (λ pc. Agrees handler c s.hw.page.dma pc after.poll after.sim after.hw.pc after.hw.page)
        e v.agrees in
    subst (λ (z : ℤ). IsAnswer handler c s.hw.page.dma z x) zero_ret a
