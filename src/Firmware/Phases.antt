-- ===== src/Firmware/Phases.antt =====
-- Runs of turns in which one side goes through: submit_cmd writes, the hw-model serves, the poll
-- thread sees the interrupt, submit_cmd takes the semaphore.
use deepspan.Common.{
  ◌+◌, ◌%◌, ◌^◌, ◌≡◌, refl, ap, ◌∙◌, Bool, true, false, ◌==◌, if◌then◌else◌, bit_and, bit_or,
  Option, some, List, ◌++◌, replicate,
}
use deepspan.Shm.{Page, ready_bit}
use deepspan.Shm.Ctrl.{has_start, set_start, clear_start}
use deepspan.HwModel.{
  HwServer, Reply, read_opcode, go, CmdHandler, check_running, hw_step, exec, answer,
}
use deepspan.Plugin.{Cmd, with_regs}
use deepspan.Userlib.AsyncClient.{pos}
use deepspan.Firmware.Driver.{
  SimData, PollPc, SubmitPc, poll_irq, poll_status, put_opcode, failed, eio, entering, waiting,
  returned, poll_step, submit_step, System, Turn, hw_turn, poll_turn, submit_turn, step, run,
}

-- The page with the command, and what the hw-model makes of it.
abbrev pub asked : Cmd → HwServer → HwServer
asked c hw = record hw {
  page = with_regs hw.page (record hw.page.regs {
    cmd_opcode = c.opcode;
    cmd_arg0 = c.arg0;
    cmd_arg1 = c.arg1;
    cmd_flags = 0;
    ctrl = set_start hw.page.regs.ctrl;
  });
}

unfoldable pub served : HwServer → Reply → HwServer
served hw r = record hw {
  page = record hw.page {
    regs = record hw.page.regs {
      result_status = r.status;
      result_data0 = r.data0;
      result_data1 = r.data1;
      ctrl = clear_start hw.page.regs.ctrl;
      status = ready_bit;
      irq_status = bit_or hw.page.regs.irq_status 1;
    };
    stats = record hw.page.stats {
      cmd_count = (hw.cmd_count + 1) % 2 ^ 64;
      last_opcode = hw.page.regs.cmd_opcode;
      last_result_status = r.status;
    };
  };
  cmd_count = (hw.cmd_count + 1) % 2 ^ 64;
  irq_events = hw.irq_events + 1;
}

abbrev pub seen : Page → SimData → SimData
seen p sim = record sim {
  last_status = p.regs.result_status;
  last_result0 = p.regs.result_data0;
  last_result1 = p.regs.result_data1;
  cmd_done = 1;
}

abbrev pub acked : HwServer → HwServer
acked hw = record hw { page = with_regs hw.page (record hw.page.regs { irq_status = 1 }) }

abbrev pub system : HwServer → SimData → SubmitPc → System
system hw sim pc = record { hw = hw; sim = sim; poll = poll_irq; submit = pc }

abbrev pub looks : HwServer → HwServer
looks hw = record hw { pc = check_running; running = true; auto_irq = true }

abbrev pub polled : HwServer → SubmitPc → PollPc × SimData × Page → System
polled hw pc (poll, d, p) = record {
  hw = record hw { page = p };
  sim = d;
  poll = poll;
  submit = pc;
}

module _ (handler : CmdHandler) (c : Cmd) (sim : SimData) (ts : List Turn) where
  pub writes :
      (hw : HwServer)
      → sim.mapped ≡ true
      → run handler c (system hw sim entering) (replicate 6 submit_turn ++ ts)
        ≡ run handler c (system (asked c hw) sim waiting) ts
  unfolding run step submit_step
  writes hw m =
      ap
        (λ (b : Bool).
          run handler c (system hw sim (if b then put_opcode else failed eio))
            (replicate 5 submit_turn ++ ts))
        m

  pub serves :
      (hw : HwServer) (r : Reply) (pc : SubmitPc)
      → has_start hw.page.regs.ctrl ≡ true
      → handler hw.page.dma hw.page.regs.cmd_opcode hw.page.regs.cmd_arg0 hw.page.regs.cmd_arg1
        ≡ some r
      → run handler c (system (looks hw) sim pc) (replicate 16 hw_turn ++ ts)
        ≡ run handler c (system (looks (served hw r)) sim pc) ts
  unfolding run step hw_step exec answer served
  serves hw r pc starts answers =
      let on : HwServer = looks hw in
      ap
        (λ (b : Bool).
          run handler c (system (if b then go on read_opcode else go on check_running) sim pc)
            (replicate 14 hw_turn ++ ts))
        starts
      ∙ ap
          (λ (o : Option Reply).
            run handler c (system (answer on hw.page.regs.cmd_opcode o) sim pc)
              (replicate 10 hw_turn ++ ts))
          answers

  pub polls :
      (hw : HwServer) (pc : SubmitPc)
      → (bit_and hw.page.regs.irq_status 1 == 0) ≡ false
      → run handler c (system hw (record sim { cmd_done = 0 }) pc) (replicate 6 poll_turn ++ ts)
        ≡ run handler c (system (acked hw) (seen hw.page sim) pc) ts
  unfolding run step poll_step
  polls hw pc e =
      ap
        (λ (b : Bool).
          let idle : SimData = record sim { cmd_done = 0 } in
          run handler c
            (polled hw pc (if b then (poll_irq, idle, hw.page) else (poll_status, idle, hw.page)))
            (replicate 5 poll_turn ++ ts))
        e

  pub takes :
      (hw : HwServer)
      → run handler c
          (system hw (record sim { cmd_done = 1 }) waiting)
          (replicate 2 submit_turn ++ ts)
        ≡ run handler c
            (system hw
              (record sim { cmd_done = 0 })
              (returned (record {
                ret = pos 0;
                status = sim.last_status;
                data0 = sim.last_result0;
                data1 = sim.last_result1;
              })))
            ts
  unfolding run step submit_step
  takes hw = refl
