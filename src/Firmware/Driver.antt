-- ===== src/Firmware/Driver.antt =====
-- firmware/drivers/deepspan/deepspan_hwip_sim.c: the driver on the shared page. `submit_cmd` and the
-- poll thread are taken apart into their accesses; both run beside the hw-model.
use deepspan.Common.{
  ℕ, ◌+◌, ◌-◌, Bool, ◌==◌, ltb, if◌then◌else◌, min, bit_and, Option, none, some, List, [], ◌∷◌,
  ◌++◌, drop, length,
}
use deepspan.Shm.{Page}
use deepspan.Shm.Ctrl.{set_start}
use deepspan.HwModel.{HwServer, CmdHandler, hw_step}
use deepspan.Plugin.{Cmd, with_regs}
use deepspan.Userlib.AsyncClient.{ℤ, pos, negsuc}

abbrev pub irq_done : ℕ
irq_done = 1

abbrev pub eio : ℤ
eio = negsuc 4

abbrev pub einval : ℤ
einval = negsuc 21

abbrev pub etimedout : ℤ
etimedout = negsuc 109

-- What a call of submit_cmd gives: the return value and the three results.
pub record Submitted : Type 0 where
  pub ret : ℤ
  pub status : ℕ
  pub data0 : ℕ
  pub data1 : ℕ

-- struct hwip_sim_data; `cmd_done` is the count of the semaphore, whose limit is 1.
pub record SimData : Type 0 where
  pub mapped : Bool
  pub cmd_done : ℕ
  pub last_status : ℕ
  pub last_result0 : ℕ
  pub last_result1 : ℕ

-- Where the poll thread stands in its round, and where a call of submit_cmd stands.
pub data PollPc : Type 0 where
  poll_irq poll_status poll_result0 poll_result1 poll_clear poll_give : PollPc

pub data SubmitPc : Type 0 where
  entering put_opcode put_arg0 put_arg1 put_flags starting waiting taken : SubmitPc
  returned : Submitted → SubmitPc

unfoldable pub failed : ℤ → SubmitPc
failed e = returned (record { ret = e; status = 0; data0 = 0; data1 = 0 })

-- The poll thread's loop body, one access a step; the sleep makes none.
unfoldable pub poll_step : PollPc → SimData → Page → PollPc × SimData × Page
poll_step poll_irq d p =
    if bit_and p.regs.irq_status irq_done == 0 then (poll_irq, d, p) else (poll_status, d, p)
poll_step poll_status d p = (poll_result0, record d { last_status = p.regs.result_status }, p)
poll_step poll_result0 d p = (poll_result1, record d { last_result0 = p.regs.result_data0 }, p)
poll_step poll_result1 d p = (poll_clear, record d { last_result1 = p.regs.result_data1 }, p)
poll_step poll_clear d p = (poll_give, d, with_regs p (record p.regs { irq_status = irq_done }))
poll_step poll_give d p = (poll_irq, record d { cmd_done = min 1 (d.cmd_done + 1) }, p)

-- submit_cmd up to its wait, and its results; a step at `waiting` is k_sem_take, which waits on.
unfoldable pub submit_step : Cmd → SubmitPc → SimData → Page → SubmitPc × SimData × Page
submit_step c entering d p = (if d.mapped then put_opcode else failed eio, d, p)
submit_step c put_opcode d p = (put_arg0, d, with_regs p (record p.regs { cmd_opcode = c.opcode }))
submit_step c put_arg0 d p = (put_arg1, d, with_regs p (record p.regs { cmd_arg0 = c.arg0 }))
submit_step c put_arg1 d p = (put_flags, d, with_regs p (record p.regs { cmd_arg1 = c.arg1 }))
submit_step c put_flags d p = (starting, d, with_regs p (record p.regs { cmd_flags = 0 }))
submit_step c starting d p =
    (waiting, d, with_regs p (record p.regs { ctrl = set_start p.regs.ctrl }))
submit_step c waiting d p =
    if d.cmd_done == 0 then (waiting, d, p) else (taken, record d { cmd_done = d.cmd_done - 1 }, p)
submit_step c taken d p = (
  returned (record {
    ret = pos 0;
    status = d.last_status;
    data0 = d.last_result0;
    data1 = d.last_result1;
  }),
  d,
  p,
)
submit_step c (returned r) d p = (returned r, d, p)

-- The timeout ends the wait with -EAGAIN.
unfoldable pub time_out : SubmitPc → SubmitPc
time_out waiting = failed etimedout
time_out pc = pc

-- 0 is 5000 ms.
unfoldable pub timeout_of : ℕ → ℕ
timeout_of timeout_ms = if timeout_ms == 0 then 5000 else timeout_ms

pub record System : Type 0 where
  pub hw : HwServer
  pub sim : SimData
  pub poll : PollPc
  pub submit : SubmitPc

pub data Turn : Type 0 where
  hw_turn poll_turn submit_turn timeout_turn : Turn

module _ (handler : CmdHandler) (c : Cmd) where
  unfoldable pub step : System → Turn → System
  step s hw_turn = record s { hw = hw_step handler s.hw }
  step s poll_turn =
      let (pc, d, p) = poll_step s.poll s.sim s.hw.page in
      record s { hw = record s.hw { page = p }; sim = d; poll = pc }
  step s submit_turn =
      let (pc, d, p) = submit_step c s.submit s.sim s.hw.page in
      record s { hw = record s.hw { page = p }; sim = d; submit = pc }
  step s timeout_turn = record s { submit = time_out s.submit }

  unfoldable pub run : System → List Turn → System
  run s [] = s
  run s (t ∷ ts) = run (step s t) ts

-- SHM_DMA_MAX_LEN
abbrev pub shm_dma_max_len : ℕ
shm_dma_max_len = 0xc00

-- deepspan_hwip_set_dma: `src` holds `len` bytes.
unfoldable pub set_dma : Option Page → List ℕ → ℤ × Option Page
set_dma none src = (eio, none)
set_dma (some p) src =
    if ltb shm_dma_max_len (length src)
    then (einval, some p)
    else (pos 0, some (record p { dma = src ++ drop (length src) p.dma }))

-- deepspan_hwip_version
unfoldable pub version : Option Page → ℕ
version none = 0
version (some p) = p.regs.version
