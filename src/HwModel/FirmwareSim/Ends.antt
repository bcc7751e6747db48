-- ===== src/HwModel/FirmwareSim/Ends.antt =====
-- sim/hw-model/src/firmware_sim.cpp: how the command loop ends.
use deepspan.Common.{ℕ, suc, ◌-◌, ◌≤◌, ◌≡◌, refl, false, List, [], ◌∷◌, arith}
use deepspan.Shm.{Page}
use deepspan.HwModel.{CmdHandler}
use deepspan.HwModel.FirmwareSim.{
  FwSim, FwPc, fw_exec, fw_step, looping, put_opcode, put_arg0, put_arg1, starting, polling,
  read_status, read_data0, read_data1, counting, storing, exited,
}
use deepspan.HwModel.FirmwareSim.Answers.{FwSystem, FwTurn, hw_turn, sim_turn, signal, step, run}

abbrev rank : FwPc → ℕ
rank exited = 0
rank looping = 1
rank storing = 2
rank (counting r) = 3
rank (read_data1 status data0) = 4
rank (read_data0 status) = 5
rank read_status = 6
rank (polling t) = 7
rank starting = 8
rank put_arg1 = 9
rank put_arg0 = 10
rank put_opcode = 11

rank-exited : (pc : FwPc) → rank pc ≡ 0 → pc ≡ exited
rank-exited exited e = refl
rank-exited _ e = absurd (omega arith)

rank-le : (pc : FwPc) → rank pc ≤ 11
rank-le _ = ground arith

abbrev Nearer : FwPc → FwSim → Type 0
Nearer pc s = (rank s.pc ≤ rank pc - 1) × (s.going ≡ false)

fw_exec-Nearer :
    (pc : FwPc) (s : FwSim) (p : Page) → s.pc ≡ pc → s.going ≡ false → Nearer pc (fw_exec pc s p).0
unfolding fw_exec
fw_exec-Nearer (polling t) s p e h = ground arith
fw_exec-Nearer looping s p e h = ground arith
fw_exec-Nearer exited s p e h = ground arith
fw_exec-Nearer _ s p e h = ground arith

abbrev pub sim_turns : List FwTurn → ℕ
sim_turns [] = 0
sim_turns (sim_turn ∷ ts) = suc (sim_turns ts)
sim_turns (_ ∷ ts) = sim_turns ts

module _ (handler : CmdHandler) where
  run-rank :
      (ts : List FwTurn) (s : FwSystem)
      → s.sim.going ≡ false
      → rank (run handler s ts).sim.pc ≤ rank s.sim.pc - sim_turns ts
  unfolding run step fw_step
  run-rank [] s h = omega arith
  run-rank (hw_turn ∷ ts) s h = run-rank ts (step handler s hw_turn) h
  run-rank (signal ∷ ts) s h = run-rank ts (step handler s signal) refl
  run-rank (sim_turn ∷ ts) s h =
      let (near, still) = fw_exec-Nearer s.sim.pc s.sim s.hw.page refl h in
      omega (arith, run-rank ts (step handler s sim_turn) still, near)

  -- Once a signal has cleared g_running, wherever the loop stands and whatever the hw-model does,
  -- eleven accesses of firmware_sim take it out of its loop.
  pub run-exited :
      (ts : List FwTurn) (s : FwSystem)
      → s.sim.going ≡ false
      → 11 ≤ sim_turns ts
      → (run handler s ts).sim.pc ≡ exited
  run-exited ts s h l =
      rank-exited (run handler s ts).sim.pc (omega (arith, run-rank ts s h, rank-le s.sim.pc))
