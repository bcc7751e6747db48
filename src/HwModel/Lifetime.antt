-- ===== src/HwModel/Lifetime.antt =====
-- sim/hw-model/src/hw_model_server.cpp: an HwModelServer as an object, from its constructor to its
-- destructor, with run(), run_async() and stop() in any order.
use deepspan.Common.{ℕ, zero, suc, ◌≡◌, ◌≢◌, refl, Bool, true, false, if◌then◌else◌, arith}
use deepspan.Shm.{Page}
use deepspan.HwModel.{
  HwServer, HwPc, CmdHandler, default_handler, check_running, exited, answer, exec, hw_step,
  hw_steps, stop,
}
use deepspan.HwModel.Stop.{Ends, stop-Ends}

-- `hw` has the members of the poll loop; `joinable` is whether poll_thread_ has a thread.
pub record Server : Type 0 where
  pub cmd_handler : CmdHandler
  pub hw : HwServer
  pub joinable : Bool

-- The constructor, with a page that init() will make.
unfoldable pub new : Bool → Page → Server
new auto_irq page = record {
  cmd_handler = default_handler;
  hw = record {
    pc = exited;
    running = false;
    auto_irq = auto_irq;
    page = page;
    cmd_count = 0;
    irq_events = 0;
  };
  joinable = false;
}

unfoldable pub set_cmd_handler : CmdHandler → Server → Server
set_cmd_handler handler s = record s { cmd_handler = handler }

-- run(), up to the first test of the loop.
unfoldable pub run : Server → Server
run s = record s { hw = record s.hw { pc = check_running; running = true } }

unfoldable pub run_async : Server → Server
unfolding run
run_async s = record (run s) { joinable = true }

-- stop(), with the accesses that the thread makes until it ends while stop() joins it.
unfoldable pub stop_and_join : ℕ → Server → Server
stop_and_join n s =
    if s.joinable
    then record s { hw = hw_steps s.cmd_handler n (stop s.hw); joinable = false }
    else record s { hw = stop s.hw }

-- ~HwModelServer
unfoldable pub destroy : ℕ → Server → Server
unfolding stop_and_join
destroy n s = stop_and_join n s

-- The loop is in its body or at its test.
Loops : HwPc → Type 0
Loops pc = pc ≢ exited

module _ (handler : CmdHandler) where
  exec-Loops :
      (pc : HwPc) (s : HwServer)
      → s.running ≡ true
      → Loops pc
      → Loops (exec handler pc s).pc × ((exec handler pc s).running ≡ true)
  unfolding exec Loops answer
  exec-Loops pc s e h = ground arith

  hw_steps-Loops :
      (n : ℕ) (s : HwServer) → s.running ≡ true → Loops s.pc → Loops (hw_steps handler n s).pc
  unfolding hw_steps hw_step
  hw_steps-Loops zero s e h = h
  hw_steps-Loops (suc n) s e h =
      let (k, f) = exec-Loops s.pc s e h in hw_steps-Loops n (exec handler s.pc s) f k

-- A stop() that comes before run() is lost, as when a signal reaches the process between the
-- installation of its handlers and run(): run() sets `running_` again, and no number of accesses
-- takes the loop to its end.
pub stop-run_lost :
    (n m : ℕ) (s : Server)
    → let s' = run (stop_and_join n s) in (hw_steps s'.cmd_handler m s'.hw).pc ≢ exited
unfolding run Loops
stop-run_lost n m s =
    let s' = run (stop_and_join n s) in hw_steps-Loops s'.cmd_handler m s'.hw refl (λ e. cc)

-- The destructor of a server whose thread runs joins it within sixteen accesses, and leaves nothing
-- to join.
pub destroy-Ends :
    (s : Server) → s.joinable ≡ true → Ends (destroy 16 s).hw.pc × ((destroy 16 s).joinable ≡ false)
unfolding destroy stop_and_join
destroy-Ends s e = rw e (stop-Ends s.cmd_handler s.hw, refl)
