-- ===== src/Server/Mgmt.antt =====
-- server/src/mgmt_service.cpp: ResetDevice, which sets CTRL.RESET and leaves it to the hw-model.
use deepspan.Common.{
  ℕ, zero, suc, ◌^◌, ◌<◌, ◌≡◌, subst, ◌∙◌, if◌then◌else◌, Bool, true, false, Option, none, some,
}
use deepspan.Shm.{Page}
use deepspan.Shm.Ctrl.{
  has_start, has_reset, set_reset, has_reset-set_reset, has_reset-clear_start, set_reset-lt,
  clear_start-lt,
}
use deepspan.HwModel.{
  HwServer, HwPc, CmdHandler, Reply, go, exec, hw_step, hw_steps, answer, check_running, load_ctrl,
  read_opcode, read_arg0, read_arg1, handling, write_data0, write_data1, write_status, write_count,
  write_last_opcode, write_last_status, clearing, set_ready, raise_bits, raise_event, exited,
  crashed,
}

-- The page after the call, `none` where there is no mapping; and the response's `success`.
unfoldable pub reset_device : Option Page → Option Page × Bool
reset_device none = (none, false)
reset_device (some p) =
    (some (record p { regs = record p.regs { ctrl = set_reset p.regs.ctrl } }), true)

abbrev Resetting : HwServer → Type 0
Resetting s = (has_reset s.page.regs.ctrl ≡ true) × (s.page.regs.ctrl < 2 ^ 32)

answer-Resetting :
    (s : HwServer) (op : ℕ) (r : Option Reply) → Resetting s → Resetting (answer s op r)
unfolding answer
answer-Resetting s op none v = v
answer-Resetting s op (some r) v = v

if_page :
    (b : Bool) (s : HwServer) (pc pc' : HwPc)
    → Resetting s
    → Resetting (if b then go s pc else go s pc')
if_page true s pc pc' v = v
if_page false s pc pc' v = v

exec-Resetting :
    (handler : CmdHandler) (pc : HwPc) (s : HwServer) → Resetting s → Resetting (exec handler pc s)
unfolding exec
exec-Resetting handler check_running s v = if_page s.running s load_ctrl exited v
exec-Resetting handler load_ctrl s v =
    if_page (has_start s.page.regs.ctrl) s read_opcode check_running v
exec-Resetting handler (handling op a0 a1) s v =
    answer-Resetting s op (handler s.page.dma op a0 a1) v
exec-Resetting handler clearing s (r, w) =
    (has_reset-clear_start s.page.regs.ctrl w ∙ r, clear_start-lt s.page.regs.ctrl w)
exec-Resetting handler read_opcode s v = v
exec-Resetting handler (read_arg0 op) s v = v
exec-Resetting handler (read_arg1 op a0) s v = v
exec-Resetting handler (write_data0 op r) s v = v
exec-Resetting handler (write_data1 op r) s v = v
exec-Resetting handler (write_status op r) s v = v
exec-Resetting handler (write_count op r) s v = v
exec-Resetting handler (write_last_opcode op r) s v = v
exec-Resetting handler (write_last_status r) s v = v
exec-Resetting handler set_ready s v = v
exec-Resetting handler raise_bits s v = v
exec-Resetting handler raise_event s v = v
exec-Resetting handler exited s v = v
exec-Resetting handler crashed s v = v

hw_steps-Resetting :
    (handler : CmdHandler) (n : ℕ) (s : HwServer) → Resetting s → Resetting (hw_steps handler n s)
unfolding hw_steps hw_step
hw_steps-Resetting handler zero s v = v
hw_steps-Resetting handler (suc n) s v =
    hw_steps-Resetting handler n (hw_step handler s) (exec-Resetting handler s.pc s v)

-- After ResetDevice has set CTRL.RESET, the bit is still set after any number of steps of the
-- hw-model, whatever it was doing.
pub reset_stays :
    (handler : CmdHandler) (s : HwServer) (p : Page) (n : ℕ)
    → s.page.regs.ctrl < 2 ^ 32
    → reset_device (some s.page) ≡ (some p, true)
    → has_reset (hw_steps handler n (record s { page = p })).page.regs.ctrl ≡ true
unfolding reset_device
reset_stays handler s p n w e =
    let reset : HwServer = record s {
      page = record s.page { regs = record s.page.regs { ctrl = set_reset s.page.regs.ctrl } };
    } in
    let same : reset.page ≡ p = cc in
    let v =
      hw_steps-Resetting handler n reset
        (has_reset-set_reset s.page.regs.ctrl, set_reset-lt s.page.regs.ctrl w) in
    subst
      (λ (q : Page). has_reset (hw_steps handler n (record s { page = q })).page.regs.ctrl ≡ true)
      same v.0
