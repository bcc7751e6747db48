-- ===== src/HwModel.antt =====
-- sim/hw-model/src/hw_model_server.cpp: the server that plays the hardware. `poll_loop` is taken
-- apart into its single memory accesses, for a client runs between any two of them. The latency
-- and the 100 us sleep make no access. A command handler may read the DMA bytes; `none` is a read
-- outside the page, which ends the process.
pub mod Transport
pub mod FirmwareSim
pub mod Stop
pub mod Lifetime
pub mod Args
pub mod Main
use deepspan.Common.{
  ℕ, zero, suc, ◌+◌, ◌%◌, ◌^◌, Bool, false, if◌then◌else◌, Option, none, some, List, bit_or,
}
use deepspan.Shm.{Page, RegMap, ShmStats, ready_bit}
use deepspan.Shm.Ctrl.{has_start, clear_start}

pub record Reply : Type 0 where
  pub status : ℕ
  pub data0 : ℕ
  pub data1 : ℕ

-- DMA bytes, opcode, arg0, arg1.
abbrev pub CmdHandler : Type 0
CmdHandler = List ℕ → ℕ → ℕ → ℕ → Option Reply

unfoldable pub default_handler : CmdHandler
default_handler dma opcode arg0 arg1 = some (record { status = 0; data0 = arg0; data1 = arg1 })

-- Where the loop stands, with its local variables.
pub data HwPc : Type 0 where
  check_running load_ctrl read_opcode : HwPc
  read_arg0 : ℕ → HwPc
  read_arg1 : ℕ → ℕ → HwPc
  handling : ℕ → ℕ → ℕ → HwPc
  write_data0 write_data1 write_status write_count write_last_opcode : ℕ → Reply → HwPc
  write_last_status : Reply → HwPc
  clearing set_ready raise_bits raise_event exited crashed : HwPc

pub record HwServer : Type 0 where
  pub pc : HwPc
  pub running : Bool
  pub auto_irq : Bool
  pub page : Page
  pub cmd_count : ℕ
  pub irq_events : ℕ

abbrev pub store : HwServer → HwPc → RegMap → HwServer
store s pc r = record s { pc = pc; page = record s.page { regs = r } }

abbrev pub store_stats : HwServer → HwPc → ShmStats → HwServer
store_stats s pc t = record s { pc = pc; page = record s.page { stats = t } }

abbrev pub go : HwServer → HwPc → HwServer
go s pc = record s { pc = pc }

unfoldable pub answer : HwServer → ℕ → Option Reply → HwServer
answer s op none = go s crashed
answer s op (some r) = go s (write_data0 op r)

module _ (handler : CmdHandler) where
  -- One access of `poll_loop`. `raise_irq(1)` is the last two.
  unfoldable pub exec : HwPc → HwServer → HwServer
  unfolding answer
  exec check_running s = if s.running then go s load_ctrl else go s exited
  exec load_ctrl s = if has_start s.page.regs.ctrl then go s read_opcode else go s check_running
  exec read_opcode s = go s (read_arg0 s.page.regs.cmd_opcode)
  exec (read_arg0 op) s = go s (read_arg1 op s.page.regs.cmd_arg0)
  exec (read_arg1 op a0) s = go s (handling op a0 s.page.regs.cmd_arg1)
  exec (handling op a0 a1) s = answer s op (handler s.page.dma op a0 a1)
  exec (write_data0 op r) s =
      store s (write_data1 op r) (record s.page.regs { result_data0 = r.data0 })
  exec (write_data1 op r) s =
      store s (write_status op r) (record s.page.regs { result_data1 = r.data1 })
  exec (write_status op r) s =
      store s (write_count op r) (record s.page.regs { result_status = r.status })
  exec (write_count op r) s =
      let count = (s.cmd_count + 1) % 2 ^ 64 in
      record (store_stats s (write_last_opcode op r) (record s.page.stats { cmd_count = count })) {
        cmd_count = count;
      }
  exec (write_last_opcode op r) s =
      store_stats s (write_last_status r) (record s.page.stats { last_opcode = op })
  exec (write_last_status r) s =
      store_stats s clearing (record s.page.stats { last_result_status = r.status })
  exec clearing s = store s set_ready (record s.page.regs { ctrl = clear_start s.page.regs.ctrl })
  exec set_ready s =
      store s (if s.auto_irq then raise_bits else check_running)
        (record s.page.regs { status = ready_bit })
  exec raise_bits s =
      store s raise_event (record s.page.regs { irq_status = bit_or s.page.regs.irq_status 1 })
  exec raise_event s = record s { pc = check_running; irq_events = s.irq_events + 1 }
  exec exited s = go s exited
  exec crashed s = go s crashed

  unfoldable pub hw_step : HwServer → HwServer
  unfolding exec
  hw_step s = exec s.pc s

-- The loop with nothing between its accesses.
unfoldable pub hw_steps : CmdHandler → ℕ → HwServer → HwServer
hw_steps handler zero s = s
hw_steps handler (suc n) s = hw_steps handler n (hw_step handler s)

unfoldable pub stop : HwServer → HwServer
stop s = record s { running = false }
