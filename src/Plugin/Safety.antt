-- ===== src/Plugin/Safety.antt =====
-- What a client of the hw-model is told: the invariant of the SHM protocol.
use deepspan.Common.{
  ℕ, ◌^◌, ◌<◌, ◌≡◌, refl, sym, subst, ◌⊎◌, true, false, Option, none, some, List, [], ◌∷◌, arith,
}
use deepspan.Shm.{Page}
use deepspan.Shm.Ctrl.{
  has_start, set_start, has_start-set_start, has_start-clear_start, set_start-lt, clear_start-lt,
}
use deepspan.HwModel.{
  HwServer, HwPc, Reply, CmdHandler, check_running, load_ctrl, read_opcode, read_arg0, read_arg1,
  handling, write_data0, write_data1, write_status, write_count, write_last_opcode,
  write_last_status, clearing, set_ready, raise_bits, raise_event, exited, crashed, hw_step, exec,
}
use deepspan.Plugin.{
  Cmd, ClientPc, write_opcode, write_arg0, write_arg1, starting, polling, read_data0, read_data1,
  done, timed_out, client_step, System, Turn, hw_turn, client_turn, step, run,
}

-- The hw-model holds no command.
abbrev pub Quiet : HwPc → Type 0
Quiet check_running = Unit
Quiet load_ctrl = Unit
Quiet set_ready = Unit
Quiet raise_bits = Unit
Quiet raise_event = Unit
Quiet exited = Unit
Quiet _ = ⊥

abbrev pub Idle : HwPc → Page → Type 0
Idle hw p = (has_start p.regs.ctrl ≡ false) × Quiet hw

module _ (handler : CmdHandler) (c : Cmd) (dma : List ℕ) where
  abbrev pub reply : Option Reply
  reply = handler dma c.opcode c.arg0 c.arg1

  -- The result registers hold what the handler says to the command.
  abbrev pub Answered : Page → Type 0
  Answered p =
      reply
      ≡ some (record {
        status = p.regs.result_status;
        data0 = p.regs.result_data0;
        data1 = p.regs.result_data1;
      })

  -- With START set, the hw-model is on its way to the answer.
  abbrev pub Serving : HwPc → Page → Type 0
  Serving (read_arg0 op) p = op ≡ c.opcode
  Serving (read_arg1 op a0) p = (op ≡ c.opcode) × (a0 ≡ c.arg0)
  Serving (handling op a0 a1) p = (op ≡ c.opcode) × (a0 ≡ c.arg0) × (a1 ≡ c.arg1)
  Serving (write_data0 op r) p = reply ≡ some r
  Serving (write_data1 op r) p = (reply ≡ some r) × (p.regs.result_data0 ≡ r.data0)
  Serving (write_status op r) p =
      (reply ≡ some r) × (p.regs.result_data0 ≡ r.data0) × (p.regs.result_data1 ≡ r.data1)
  Serving (write_count op r) p = Answered p
  Serving (write_last_opcode op r) p = Answered p
  Serving (write_last_status r) p = Answered p
  Serving clearing p = Answered p
  Serving crashed p = reply ≡ none
  Serving _ p = Unit

  abbrev pub Holds : Page → Type 0
  Holds p = (p.regs.cmd_opcode ≡ c.opcode) × (p.regs.cmd_arg0 ≡ c.arg0) × (p.regs.cmd_arg1 ≡ c.arg1)

  abbrev pub Agrees : ClientPc → HwPc → Page → Type 0
  Agrees write_opcode hw p = Idle hw p
  Agrees write_arg0 hw p = Idle hw p × (p.regs.cmd_opcode ≡ c.opcode)
  Agrees write_arg1 hw p = Idle hw p × (p.regs.cmd_opcode ≡ c.opcode) × (p.regs.cmd_arg0 ≡ c.arg0)
  Agrees starting hw p = Idle hw p × Holds p
  Agrees (polling i) hw p =
      ((has_start p.regs.ctrl ≡ true) × Holds p × Serving hw p) ⊎ (Idle hw p × Answered p)
  Agrees read_data0 hw p = Idle hw p × Answered p
  Agrees (read_data1 r0) hw p = Idle hw p × Answered p × (r0 ≡ p.regs.result_data0)
  Agrees (done r0 r1) hw p =
      Idle hw p × Answered p × (r0 ≡ p.regs.result_data0) × (r1 ≡ p.regs.result_data1)
  Agrees timed_out hw p = Unit

  pub record Inv (client : ClientPc) (hw : HwPc) (p : Page) : Type 0 where
    pub word : p.regs.ctrl < 2 ^ 32
    pub bytes : p.dma ≡ dma
    pub agrees : Agrees client hw p

  pub Quiet-Serving : (hw : HwPc) (p : Page) → Quiet hw → Serving hw p
  Quiet-Serving check_running p q = tt
  Quiet-Serving _ p q = ground arith

  client_step-Inv :
      (client : ClientPc) (hw : HwPc) (p : Page)
      → Inv client hw p
      → Inv (client_step c client p).0 hw (client_step c client p).1
  unfolding client_step
  client_step-Inv write_opcode hw p v = ground arith
  client_step-Inv write_arg0 hw p v = ground arith
  client_step-Inv write_arg1 hw p v = ground arith
  client_step-Inv starting hw p v = ground (
    arith,
    has_start-set_start p.regs.ctrl,
    set_start-lt p.regs.ctrl,
    Quiet-Serving hw (record p { regs = record p.regs { ctrl = set_start p.regs.ctrl } }),
  )
  client_step-Inv (polling i) hw p v = ground arith
  client_step-Inv read_data0 hw p v = ground arith
  client_step-Inv (read_data1 r0) hw p v = ground arith
  client_step-Inv (done r0 r1) hw p v = v
  client_step-Inv timed_out hw p v = v

  pub exec-Inv :
      (hw : HwPc) (client : ClientPc) (s : HwServer)
      → Inv client hw s.page
      → Inv client (exec handler hw s).pc (exec handler hw s).page
  unfolding exec
  exec-Inv check_running client s v = ground arith
  exec-Inv load_ctrl client s v = ground arith
  exec-Inv read_opcode client s v = ground arith
  exec-Inv (read_arg0 op) client s v = ground arith
  exec-Inv (read_arg1 op a0) client s v = ground arith
  exec-Inv (handling op a0 a1) client s v = ground arith
  exec-Inv (write_data0 op r) client s v = ground arith
  exec-Inv (write_data1 op r) client s v = ground arith
  exec-Inv (write_status op r) client s v = ground arith
  exec-Inv (write_count op r) client s v = ground arith
  exec-Inv (write_last_opcode op r) client s v = ground arith
  exec-Inv (write_last_status r) client s v = ground arith
  exec-Inv clearing client s v =
      ground (arith, has_start-clear_start s.page.regs.ctrl, clear_start-lt s.page.regs.ctrl)
  exec-Inv set_ready client s v = ground arith
  exec-Inv raise_bits client s v = ground arith
  exec-Inv raise_event client s v = ground arith
  exec-Inv exited client s v = ground arith
  exec-Inv crashed client s v = ground arith

  pub step-Inv :
      (s : System) (t : Turn)
      → Inv s.client s.hw.pc s.hw.page
      → Inv (step handler c s t).client (step handler c s t).hw.pc (step handler c s t).hw.page
  unfolding step hw_step
  step-Inv s hw_turn v = exec-Inv s.hw.pc s.client s.hw v
  step-Inv s client_turn v = client_step-Inv s.client s.hw.pc s.hw.page v

  pub run-Inv :
      (ts : List Turn) (s : System)
      → Inv s.client s.hw.pc s.hw.page
      → Inv (run handler c s ts).client (run handler c s ts).hw.pc (run handler c s ts).hw.page
  unfolding run
  run-Inv [] s v = v
  run-Inv (t ∷ ts) s v = run-Inv ts (step handler c s t) (step-Inv s t v)

-- A call of `submit` is about to begin, and the hw-model waits for a command.
pub record Begins (s : System) : Type 0 where
  pub first : s.client ≡ write_opcode
  pub idle : Idle s.hw.pc s.hw.page
  pub word : s.hw.page.regs.ctrl < 2 ^ 32

pub Begins-Inv :
    (handler : CmdHandler) (c : Cmd) (s : System)
    → Begins s
    → Inv handler c s.hw.page.dma s.client s.hw.pc s.hw.page
Begins-Inv handler c s b = record {
  word = b.word;
  bytes = refl;
  agrees = subst (λ pc. Agrees handler c s.hw.page.dma pc s.hw.pc s.hw.page) (sym b.first) b.idle;
}

-- Whatever the interleaving of the two processes: if a `submit` that began with the hw-model idle
-- returns two words, they are those that the handler answers to this command on the DMA bytes
-- that were in the page at the beginning.
pub run-done :
    (handler : CmdHandler) (c : Cmd) (s : System) (ts : List Turn) (r0 r1 : ℕ)
    → Begins s
    → (run handler c s ts).client ≡ done r0 r1
    → (status : ℕ) × (handler s.hw.page.dma c.opcode c.arg0 c.arg1
        ≡ some (record { status = status; data0 = r0; data1 = r1 }))
run-done handler c s ts r0 r1 b e =
    let after = run handler c s ts in
    let v = run-Inv handler c s.hw.page.dma ts s (Begins-Inv handler c s b) in
    let a = subst (λ pc. Agrees handler c s.hw.page.dma pc after.hw.pc after.hw.page) e v.agrees in
    (after.hw.page.regs.result_status, ground arith)
