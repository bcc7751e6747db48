-- ===== src/Tests/Firmware.antt =====
-- Two commands of the firmware's driver to an accelerator.
use deepspan.Common.{◌≡◌, refl, true, some, List, arith}
use deepspan.Shm.Ctrl.{has_start}
use deepspan.HwModel.{default_handler}
use deepspan.Plugin.{Cmd}
use deepspan.Firmware.Sticky.{IsRaised}
use deepspan.Firmware.Driver.{SimData, Turn, entering, returned, run}
use deepspan.Firmware.Safety.{run_answers}
use deepspan.Firmware.Stale.{served_turns, early_turns, at_rest, reply_of, run_stale}
use deepspan.Tests.Plugin.{idle_hw}

abbrev first_cmd : Cmd
first_cmd = record { opcode = 1; arg0 = 0xaa; arg1 = 1 }

abbrev second_cmd : Cmd
second_cmd = record { opcode = 1; arg0 = 0xbb; arg1 = 2 }

abbrev fresh_sim : SimData
fresh_sim = record {
  mapped = true;
  cmd_done = 0;
  last_status = 0;
  last_result0 = 0;
  last_result1 = 0;
}

run_stale_example :
    let s = run default_handler first_cmd (at_rest idle_hw fresh_sim) served_turns in
    let next = record s { submit = entering } in
    let t = run default_handler second_cmd next early_turns in
    (s.submit ≡ returned (reply_of (record { status = 0; data0 = 0xaa; data1 = 1 })))
    × (t.submit ≡ returned (reply_of (record { status = 0; data0 = 0xaa; data1 = 1 })))
    × (has_start t.hw.page.regs.ctrl ≡ true)
    × (t.hw.cmd_count ≡ s.hw.cmd_count)
    × ((ts : List Turn) → IsRaised (run default_handler second_cmd next ts).hw.page)
unfolding default_handler
run_stale_example =
    run_stale default_handler first_cmd second_cmd idle_hw fresh_sim
      (record { status = 0; data0 = 0xaa; data1 = 1 }) refl

run_answers_example :
    default_handler idle_hw.page.dma 1 0xaa 1
    ≡ some (record { status = 0; data0 = 0xaa; data1 = 1 })
unfolding default_handler has_start
run_answers_example =
    run_answers default_handler first_cmd (at_rest idle_hw fresh_sim) served_turns
      (reply_of (record { status = 0; data0 = 0xaa; data1 = 1 }))
      (record {
        enters = refl;
        polls = refl;
        empty = refl;
        clear = refl;
        stopped = refl;
        rests = tt;
        word = omega arith;
      })
      (run_stale default_handler first_cmd second_cmd idle_hw fresh_sim
        (record { status = 0; data0 = 0xaa; data1 = 1 }) refl).0
      refl
