-- ===== src/Tests/FirmwareSim.antt =====
-- firmware_sim beside the hw-model of the plugin tests.
use deepspan.Common.{◌≡◌, refl, ap, false, some, List, [], ◌∷◌, ◌++◌, replicate, arith}
use deepspan.Shm.Ctrl.{has_start, set_start, clear_start}
use deepspan.HwModel.{default_handler, hw_step, exec, answer}
use deepspan.HwModel.FirmwareSim.{fw_cmd, fw_exec, fw_step, exited, polling}
use deepspan.HwModel.FirmwareSim.Answers.{
  FwSystem, FwTurn, hw_turn, sim_turn, run, step, timed, started, Starts, AllAnswers,
  run-AllAnswers,
}
use deepspan.HwModel.FirmwareSim.Ends.{run-exited}
use deepspan.Tests.Plugin.{idle_hw, zero_page, zero-idle}

abbrev start : FwSystem
start = record { hw = idle_hw; sim = started }

start-Starts : Starts start
start-Starts = record { first = refl; idle = (zero-idle, tt); word = omega arith }

-- One command: six accesses of firmware_sim, the hw-model's answer, and six more.
abbrev one_command : List FwTurn
one_command = replicate 6 sim_turn ++ (replicate 17 hw_turn ++ replicate 6 sim_turn)

one_result :
    (run default_handler start one_command).sim.results
    ≡ some (record { status = 0; data0 = 0xdead_0000; data1 = 0 }) ∷ []
unfolding run step hw_step exec answer fw_step fw_exec fw_cmd default_handler has_start set_start
    clear_start
one_result = refl

run-AllAnswers_example :
    AllAnswers default_handler zero_page.dma (run default_handler start one_command).sim.results
run-AllAnswers_example =
    run-AllAnswers default_handler start one_command start-Starts (ap timed one_result)

-- A signal after two polls.
abbrev stopped : FwSystem
stopped = record {
  hw = idle_hw;
  sim = record { pc = polling 2; going = false; fw_count = 4; results = [] };
}

stopped_exits :
    (run default_handler stopped (replicate 5 sim_turn ++ (hw_turn ∷ replicate 6 sim_turn))).sim.pc
    ≡ exited
stopped_exits =
    run-exited default_handler (replicate 5 sim_turn ++ (hw_turn ∷ replicate 6 sim_turn)) stopped
      refl (omega arith)
