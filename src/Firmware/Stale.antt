-- ===== src/Firmware/Stale.antt =====
-- Two calls of submit_cmd, one after the other, on a hw-model that raises interrupts.
use deepspan.Common.{ℕ, ◌≡◌, refl, sym, ap, subst, ◌∙◌, true, some, List, [], ◌++◌, replicate}
use deepspan.Shm.Ctrl.{has_start, has_start-set_start}
use deepspan.HwModel.{HwServer, Reply, CmdHandler, check_running}
use deepspan.Plugin.{Cmd}
use deepspan.Userlib.AsyncClient.{pos}
use deepspan.Firmware.Sticky.{IsRaised, bit_or-IsRaised, run-IsRaised}
use deepspan.Firmware.Phases.{
  asked, served, seen, acked, system, looks, writes, serves, polls, takes,
}
use deepspan.Firmware.Driver.{
  Submitted, SimData, poll_irq, entering, waiting, returned, System, Turn, hw_turn, poll_turn,
  submit_turn, run,
}

-- The call writes its command and waits, the hw-model serves it, the poll thread sees the
-- interrupt, and the call returns.
abbrev pub served_turns : List Turn
served_turns =
    replicate 6 submit_turn
    ++ (replicate 16 hw_turn ++ (replicate 6 poll_turn ++ replicate 2 submit_turn))

-- The poll thread goes round once more, and the call runs without the hw-model.
abbrev pub early_turns : List Turn
early_turns = replicate 6 poll_turn ++ replicate 8 submit_turn

-- A hw-model that looks for a command, and a driver that is idle on its page.
abbrev pub at_rest : HwServer → SimData → System
at_rest hw sim = record {
  hw = record hw { pc = check_running; running = true; auto_irq = true };
  sim = record sim { mapped = true; cmd_done = 0 };
  poll = poll_irq;
  submit = entering;
}

abbrev pub reply_of : Reply → Submitted
reply_of r = record { ret = pos 0; status = r.status; data0 = r.data0; data1 = r.data1 }

-- The system when the first call has returned.
after_first : Cmd → HwServer → SimData → Reply → System
after_first c hw sim r =
    let done = acked (looks (served (asked c hw) r)) in
    system done (record (seen done.page sim) { mapped = true; cmd_done = 0 })
      (returned (reply_of r))

-- A call is about to begin, after set_dma has been given `bytes`.
abbrev pub again : List ℕ → System → System
again bytes s = record s {
  hw = record s.hw { page = record s.hw.page { dma = bytes } };
  submit = entering;
}

module _ (handler : CmdHandler) (c : Cmd) (hw : HwServer) (sim : SimData) (r : Reply) where
  first :
      handler hw.page.dma c.opcode c.arg0 c.arg1 ≡ some r
      → run handler c (at_rest hw sim) served_turns ≡ after_first c hw sim r
  unfolding after_first served run
  first answers =
      let idle : SimData = record sim { mapped = true; cmd_done = 0 } in
      let done : HwServer = looks (served (asked c hw) r) in
      let rest : List Turn = replicate 6 poll_turn ++ replicate 2 submit_turn in
      writes handler c idle (replicate 16 hw_turn ++ rest) (looks hw) refl
      ∙ serves handler c idle rest (asked c hw) r waiting (has_start-set_start hw.page.regs.ctrl)
          answers
      ∙ polls handler c idle (replicate 2 submit_turn) done waiting
          (bit_or-IsRaised hw.page.regs.irq_status)
      ∙ takes handler c (seen done.page idle) [] (acked done)

  -- What stays unserved when the second call returns, which is made with `bytes` in the DMA area.
  second :
      (d : Cmd) (bytes : List ℕ)
      → let s = after_first c hw sim r in
        let t = run handler d (again bytes s) early_turns in
        (t.submit ≡ returned (reply_of r))
        × (has_start t.hw.page.regs.ctrl ≡ true)
        × (t.hw.cmd_count ≡ s.hw.cmd_count)
  unfolding after_first served run
  second d bytes =
      let before : HwServer = acked (looks (served (asked c hw) r)) in
      let done : HwServer = record before { page = record before.page { dma = bytes } } in
      let idle : SimData = record (seen done.page sim) { mapped = true; cmd_done = 0 } in
      let both =
        polls handler d idle (replicate 8 submit_turn) done entering refl
        ∙ writes handler d (seen done.page idle) (replicate 2 submit_turn) (acked done) refl
        ∙ takes handler d (seen done.page idle) [] (asked d (acked done)) in
      (
        ap (λ (s : System). s.submit) both,
        ap (λ (s : System). has_start s.hw.page.regs.ctrl) both
            ∙ has_start-set_start done.page.regs.ctrl,
        ap (λ (s : System). s.hw.cmd_count) both,
      )

acked-IsRaised :
    (c : Cmd) (hw : HwServer) (sim : SimData) (r : Reply)
    → IsRaised (after_first c hw sim r).hw.page
unfolding after_first IsRaised
acked-IsRaised c hw sim r = refl

-- For any two commands and a handler that answers the first: from a driver and a hw-model at rest,
-- there is an interleaving in which the first call of submit_cmd returns 0 with the handler's answer
-- to it, and a second call, made after that, also returns 0 with the answer to the first command,
-- while its own command has not been served: CTRL.START is still set and the hw-model's count of
-- commands is the one it had. After the first call IRQ_DONE stays set over every interleaving.
pub run_stale :
    (handler : CmdHandler) (c d : Cmd) (hw : HwServer) (sim : SimData) (r : Reply)
    → handler hw.page.dma c.opcode c.arg0 c.arg1 ≡ some r
    → let s = run handler c (at_rest hw sim) served_turns in
      let next = record s { submit = entering } in
      let t = run handler d next early_turns in
      (s.submit ≡ returned (reply_of r))
      × (t.submit ≡ returned (reply_of r))
      × (has_start t.hw.page.regs.ctrl ≡ true)
      × (t.hw.cmd_count ≡ s.hw.cmd_count)
      × ((ts : List Turn) → IsRaised (run handler d next ts).hw.page)
unfolding after_first run served
run_stale handler c d hw sim r answers =
    let served = first handler c hw sim r answers in
    let (a, b, e) = second handler c hw sim r d hw.page.dma in
    let anew : System → System = λ s. run handler d (record s { submit = entering }) early_turns in
    (
      ap (λ (s : System). s.submit) served,
      ap (λ (s : System). (anew s).submit) served ∙ a,
      ap (λ (s : System). has_start (anew s).hw.page.regs.ctrl) served ∙ b,
      ap (λ (s : System). (anew s).hw.cmd_count) served
          ∙ e
          ∙ sym (ap (λ (s : System). s.hw.cmd_count) served),
      λ ts.
          run-IsRaised handler d _ ts
            (subst (λ (s : System). IsRaised s.hw.page) (sym served) (acked-IsRaised c hw sim r)),
    )

-- The same two results when the DMA bytes are written anew between the calls.
pub run-again :
    (handler : CmdHandler) (c d : Cmd) (hw : HwServer) (sim : SimData) (r : Reply) (bytes : List ℕ)
    → handler hw.page.dma c.opcode c.arg0 c.arg1 ≡ some r
    → let s = run handler c (at_rest hw sim) served_turns in
      (s.submit ≡ returned (reply_of r))
      × ((run handler d (again bytes s) early_turns).submit ≡ returned (reply_of r))
unfolding after_first
run-again handler c d hw sim r bytes answers =
    let served = first handler c hw sim r answers in
    (
      ap (λ (s : System). s.submit) served,
      ap (λ (s : System). (run handler d (again bytes s) early_turns).submit) served
          ∙ (second handler c hw sim r d bytes).0,
    )
