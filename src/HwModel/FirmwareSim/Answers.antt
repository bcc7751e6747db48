-- ===== src/HwModel/FirmwareSim/Answers.antt =====
-- firmware_sim beside the hw-model, interleaved access by access: whose answers it records.
use deepspan.Common.{
  ℕ, ◌%◌, ◌^◌, ◌<◌, ◌≡◌, ◌⊎◌, inl, inr, refl, sym, subst, ◌∙◌, Bool, true, false, Option, none,
  some, List, [], ◌∷◌, length, arith,
}
use deepspan.Shm.{Page}
use deepspan.Shm.Ctrl.{set_start, has_start-set_start, set_start-lt}
use deepspan.HwModel.{HwServer, HwPc, CmdHandler, hw_step, exec}
use deepspan.Plugin.{ClientPc}
use deepspan.Plugin.Safety.{Idle, Inv, Quiet-Serving, exec-Inv}
use deepspan.HwModel.FirmwareSim.{
  FwSim, FwPc, FwResult, fw_cmd, fw_exec, fw_step, looping, put_opcode, put_arg0, put_arg1,
  starting, polling, read_status, read_data0, read_data1, counting, storing, exited,
}

pub record FwSystem : Type 0 where
  pub hw : HwServer
  pub sim : FwSim

-- A signal clears g_running.
pub data FwTurn : Type 0 where
  hw_turn sim_turn signal : FwTurn

unfoldable pub step : CmdHandler → FwSystem → FwTurn → FwSystem
step handler s hw_turn = record s { hw = hw_step handler s.hw }
step handler s sim_turn =
    let (sim, page) = fw_step s.sim s.hw.page in
    record { hw = record s.hw { page = page }; sim = sim }
step handler s signal = record s { sim = record s.sim { going = false } }

unfoldable pub run : CmdHandler → FwSystem → List FwTurn → FwSystem
run handler s [] = s
run handler s (t ∷ ts) = run handler (step handler s t) ts

-- Some command has timed out, or was given up at a signal.
abbrev pub timed : List (Option FwResult) → Bool
timed [] = false
timed (none ∷ rs) = true
timed (some r ∷ rs) = timed rs

module _ (handler : CmdHandler) (dma : List ℕ) where
  -- `r` is what the handler says to command number `n`.
  abbrev pub Answer : ℕ → FwResult → Type 0
  Answer n r =
      handler dma (fw_cmd n).opcode (fw_cmd n).arg0 (fw_cmd n).arg1
      ≡ some (record { status = r.status; data0 = r.data0; data1 = r.data1 })

  -- Each result, the last one first, is the answer to the command of its number.
  abbrev pub AllAnswers : List (Option FwResult) → Type 0
  AllAnswers [] = Unit
  AllAnswers (none ∷ rs) = ⊥
  AllAnswers (some r ∷ rs) = Answer (length rs % 2 ^ 64) r × AllAnswers rs

-- Where a `submit` of the same command would stand.
abbrev client_of : FwPc → ClientPc
client_of looping = ClientPc.write_opcode
client_of put_opcode = ClientPc.write_opcode
client_of put_arg0 = ClientPc.write_arg0
client_of put_arg1 = ClientPc.write_arg1
client_of starting = ClientPc.starting
client_of (polling t) = ClientPc.polling t
client_of read_status = ClientPc.read_data0
client_of (read_data0 status) = ClientPc.read_data0
client_of (read_data1 status data0) = ClientPc.read_data1 data0
client_of (counting (some r)) = ClientPc.done r.data0 r.data1
client_of (counting none) = ClientPc.timed_out
client_of storing = ClientPc.write_opcode
client_of exited = ClientPc.write_opcode

-- The status that has been read.
abbrev Status : FwPc → Page → Type 0
Status (read_data0 status) p = status ≡ p.regs.result_status
Status (read_data1 status data0) p = status ≡ p.regs.result_status
Status (counting (some r)) p = r.status ≡ p.regs.result_status
Status _ p = Unit

module _ (handler : CmdHandler) (dma : List ℕ) where
  record Good (sim : FwSim) (hw : HwPc) (p : Page) : Type 0 where
    count : sim.fw_count ≡ length sim.results % 2 ^ 64
    answers : AllAnswers handler dma sim.results
    sound : Inv handler (fw_cmd sim.fw_count) dma (client_of sim.pc) hw p
    status : Status sim.pc p

  abbrev Kept : FwSim → HwPc → Page → Type 0
  Kept sim hw p = (timed sim.results ≡ true) ⊎ Good sim hw p

  fw_exec-Good :
      (pc : FwPc) (sim : FwSim) (hw : HwPc) (p : Page)
      → sim.pc ≡ pc
      → Good (record sim { pc = pc }) hw p
      → Kept (fw_exec pc sim p).0 hw (fw_exec pc sim p).1
  unfolding fw_exec
  fw_exec-Good looping sim hw p e g = ground arith
  fw_exec-Good put_opcode sim hw p e g = ground arith
  fw_exec-Good put_arg0 sim hw p e g = ground arith
  fw_exec-Good put_arg1 sim hw p e g = ground arith
  fw_exec-Good starting sim hw p e g = ground (
    arith,
    has_start-set_start p.regs.ctrl,
    set_start-lt p.regs.ctrl,
    Quiet-Serving handler (fw_cmd sim.fw_count) dma hw
        (record p { regs = record p.regs { ctrl = set_start p.regs.ctrl } }),
  )
  fw_exec-Good (polling t) sim hw p e g = ground arith
  fw_exec-Good read_status sim hw p e g = ground arith
  fw_exec-Good (read_data0 status) sim hw p e g = ground arith
  fw_exec-Good (read_data1 status data0) sim hw p e g = ground arith
  fw_exec-Good (counting none) sim hw p e g = ground arith
  fw_exec-Good (counting (some r)) sim hw p e g = ground arith
  fw_exec-Good storing sim hw p e g = ground arith
  fw_exec-Good exited sim hw p e g = ground arith

  -- A hw-model that holds no command leaves the status register alone.
  exec-result_status :
      (pc : HwPc) (s : HwServer)
      → Idle pc s.page
      → (exec handler pc s).page.regs.result_status ≡ s.page.regs.result_status
  unfolding exec
  exec-result_status HwPc.check_running s i = ground arith
  exec-result_status HwPc.load_ctrl s i = ground arith
  exec-result_status _ s i = ground arith

  exec-Status :
      (pc : FwPc) (n : ℕ) (s : HwServer)
      → Inv handler (fw_cmd n) dma (client_of pc) s.pc s.page
      → Status pc s.page
      → Status pc (exec handler s.pc s).page
  exec-Status (read_data0 status) n s v e = e ∙ sym (exec-result_status s.pc s v.agrees.0)
  exec-Status (read_data1 status data0) n s v e = e ∙ sym (exec-result_status s.pc s v.agrees.0)
  exec-Status (counting (some r)) n s v e = e ∙ sym (exec-result_status s.pc s v.agrees.0)
  exec-Status (counting none) n s v e = tt
  exec-Status _ n s v e = tt

  exec-Good :
      (sim : FwSim) (s : HwServer)
      → Good sim s.pc s.page
      → Good sim (exec handler s.pc s).pc (exec handler s.pc s).page
  exec-Good sim s g = record {
    count = g.count;
    answers = g.answers;
    sound = exec-Inv handler (fw_cmd sim.fw_count) dma s.pc (client_of sim.pc) s g.sound;
    status = exec-Status sim.pc sim.fw_count s g.sound g.status;
  }

  -- A timeout that is recorded stays recorded.
  fw_exec-timed :
      (pc : FwPc) (sim : FwSim) (p : Page)
      → timed sim.results ≡ true
      → timed (fw_exec pc sim p).0.results ≡ true
  unfolding fw_exec
  fw_exec-timed (counting none) sim p e = refl
  fw_exec-timed (counting (some r)) sim p e = e
  fw_exec-timed _ sim p e = ground arith

  step-Kept :
      (s : FwSystem) (t : FwTurn)
      → Kept s.sim s.hw.pc s.hw.page
      → let s' = step handler s t in Kept s'.sim s'.hw.pc s'.hw.page
  unfolding step hw_step fw_step
  step-Kept s hw_turn (inl e) = inl e
  step-Kept s hw_turn (inr g) = inr (exec-Good s.sim s.hw g)
  step-Kept s sim_turn (inl e) = inl (fw_exec-timed s.sim.pc s.sim s.hw.page e)
  step-Kept s sim_turn (inr g) = fw_exec-Good s.sim.pc s.sim s.hw.pc s.hw.page refl g
  step-Kept s signal (inl e) = inl e
  step-Kept s signal (inr g) =
      inr (record { count = g.count; answers = g.answers; sound = g.sound; status = g.status })

  run-Kept :
      (ts : List FwTurn) (s : FwSystem)
      → Kept s.sim s.hw.pc s.hw.page
      → let s' = run handler s ts in Kept s'.sim s'.hw.pc s'.hw.page
  unfolding run
  run-Kept [] s k = k
  run-Kept (t ∷ ts) s k = run-Kept ts (step handler s t) (step-Kept s t k)

abbrev pub started : FwSim
started = record { pc = looping; going = true; fw_count = 0; results = [] }

-- The loop is about to begin, and the hw-model waits for a command.
pub record Starts (s : FwSystem) : Type 0 where
  pub first : s.sim ≡ started
  pub idle : Idle s.hw.pc s.hw.page
  pub word : s.hw.page.regs.ctrl < 2 ^ 32

Starts-Good :
    (handler : CmdHandler) (s : FwSystem)
    → Starts s
    → Good handler s.hw.page.dma s.sim s.hw.pc s.hw.page
Starts-Good handler s b =
    subst (λ (sim : FwSim). Good handler s.hw.page.dma sim s.hw.pc s.hw.page) (sym b.first)
      (record {
        count = omega arith;
        answers = tt;
        sound = record { word = b.word; bytes = refl; agrees = b.idle };
        status = tt;
      })

-- However the accesses of the two processes and a signal interleave, for as many commands as are
-- sent: unless a command has timed out, each result that firmware_sim has recorded is the
-- handler's answer, status and both words, to the command of its own number.
pub run-AllAnswers :
    (handler : CmdHandler) (s : FwSystem) (ts : List FwTurn)
    → Starts s
    → timed (run handler s ts).sim.results ≡ false
    → AllAnswers handler s.hw.page.dma (run handler s ts).sim.results
run-AllAnswers handler s ts b e =
    elim (run-Kept handler s.hw.page.dma ts s (inr (Starts-Good handler s b))) [
      | inl t ↦ absurd cc
      | inr g ↦ g.answers
    ]
