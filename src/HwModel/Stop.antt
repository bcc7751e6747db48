-- ===== src/HwModel/Stop.antt =====
-- sim/hw-model/src/hw_model_server.cpp: stop() clears `running_` and joins the poll thread.
use deepspan.Common.{ℕ, zero, suc, ◌-◌, ◌≤◌, ◌≡◌, ◌⊎◌, inl, inr, refl, false, arith}
use deepspan.HwModel.{
  HwServer, HwPc, CmdHandler, exec, hw_step, hw_steps, check_running, load_ctrl, read_opcode,
  read_arg0, read_arg1, handling, write_data0, write_data1, write_status, write_count,
  write_last_opcode, write_last_status, clearing, set_ready, raise_bits, raise_event, exited,
  crashed, stop,
}

-- How many steps are left to the loop's end once `running_` is false.
rank : HwPc → ℕ
rank exited = 0
rank crashed = 0
rank check_running = 1
rank raise_event = 2
rank raise_bits = 3
rank set_ready = 4
rank clearing = 5
rank (write_last_status r) = 6
rank (write_last_opcode op r) = 7
rank (write_count op r) = 8
rank (write_status op r) = 9
rank (write_data1 op r) = 10
rank (write_data0 op r) = 11
rank (handling op a0 a1) = 12
rank (read_arg1 op a0) = 13
rank (read_arg0 op) = 14
rank read_opcode = 15
rank load_ctrl = 16

abbrev pub Ends : HwPc → Type 0
Ends pc = (pc ≡ exited) ⊎ (pc ≡ crashed)

rank-Ends : (pc : HwPc) → rank pc ≡ 0 → Ends pc
unfolding rank
rank-Ends exited e = inl refl
rank-Ends crashed e = inr refl
rank-Ends _ e = absurd (omega arith)

-- A step towards the end, with `running_` left as it is.
Nearer : HwPc → HwServer → Type 0
Nearer pc s = (rank s.pc ≤ rank pc - 1) × (s.running ≡ false)

module _ (handler : CmdHandler) where
  exec-Nearer : (pc : HwPc) (s : HwServer) → s.running ≡ false → Nearer pc (exec handler pc s)
  unfolding exec Nearer rank
  exec-Nearer check_running s e = ground arith
  exec-Nearer load_ctrl s e = ground arith
  exec-Nearer read_opcode s e = ground arith
  exec-Nearer (read_arg0 op) s e = ground arith
  exec-Nearer (read_arg1 op a0) s e = ground arith
  exec-Nearer (handling op a0 a1) s e = ground arith
  exec-Nearer (write_data0 op r) s e = ground arith
  exec-Nearer (write_data1 op r) s e = ground arith
  exec-Nearer (write_status op r) s e = ground arith
  exec-Nearer (write_count op r) s e = ground arith
  exec-Nearer (write_last_opcode op r) s e = ground arith
  exec-Nearer (write_last_status r) s e = ground arith
  exec-Nearer clearing s e = ground arith
  exec-Nearer set_ready s e = ground arith
  exec-Nearer raise_bits s e = ground arith
  exec-Nearer raise_event s e = ground arith
  exec-Nearer exited s e = ground arith
  exec-Nearer crashed s e = ground arith

  steps-Ends :
      (n : ℕ) (s : HwServer) → rank s.pc ≤ n → s.running ≡ false → Ends (hw_steps handler n s).pc
  unfolding hw_steps hw_step Nearer
  steps-Ends zero s l e = rank-Ends s.pc (omega arith)
  steps-Ends (suc n) s l e =
      let (near, still) = exec-Nearer s.pc s e in
      steps-Ends n (exec handler s.pc s) (omega arith) still

  rank-le : (pc : HwPc) → rank pc ≤ 16
  unfolding rank
  rank-le _ = ground arith

  -- Wherever the poll loop stands when stop() is called, and whatever the page holds, after at most
  -- sixteen accesses the thread has left its loop, so that the join returns, or a handler that read
  -- outside the page has ended the process.
  pub stop-Ends : (s : HwServer) → Ends (hw_steps handler 16 (stop s)).pc
  unfolding stop
  stop-Ends s = steps-Ends 16 (stop s) (rank-le s.pc) refl
