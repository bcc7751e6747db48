-- ===== src/Tests/Plugin.antt =====
-- A page of zeros, a hw-model that waits, and one command.
use deepspan.Common.{
  ℕ, ◌≡◌, ◌++◌, List, true, false, some, replicate, length-replicate, refl, arith,
}
use deepspan.Common.Bytes.{IsBytes-replicate}
use deepspan.Shm.{RegMap, Page, dma_room}
use deepspan.Shm.Ctrl.{has_start}
use deepspan.HwModel.Stop.{Ends, stop-Ends}
use deepspan.HwModel.{hw_steps, stop, default_handler, check_running, HwServer}
use deepspan.HwModel.Transport.{
  Kernel, Answers, new_transport, initial_regs, init, init_map, init_open, init_size, init_event,
  served, server_init,
}
use deepspan.Plugin.{Cmd, write_opcode, done, System, Turn, hw_turn, client_turn, run}
use deepspan.Plugin.Safety.{Begins, run-done}
use deepspan.Plugin.Progress.{run_returns}
use deepspan.Plugin.Ends.{max_turns, Ended, run-Ended, client_turns-replicate}
use deepspan.Shm.Layout.{cmd_arg0, in_crc32_uapi, offset_in, crc32_uapi}
use deepspan.Shm.Access.{load32, store32, get, put, regs_of, access_agrees}
use deepspan.Plugin.EndToEnd.{Waits, IsFair}
use deepspan.Plugin.Races.{Pair, PairTurn, waiting, run_crossed, overwritten}
use deepspan.Plugin.Races

abbrev pub zero_regs : RegMap
zero_regs = record {
  ctrl = 0;
  status = 1;
  irq_status = 0;
  irq_enable = 0;
  version = 0;
  capabilities = 0;
  cmd_opcode = 0;
  cmd_arg0 = 0;
  cmd_arg1 = 0;
  cmd_flags = 0;
  result_status = 0;
  result_data0 = 0;
  result_data1 = 0;
}

abbrev pub zero_page : Page
zero_page = record {
  regs = zero_regs;
  stats = record {
    cmd_count = 0;
    start_time_sec = 0;
    last_opcode = 0;
    last_result_status = 0;
    fw_cmd_count = 0;
  };
  dma = replicate dma_room 0;
}

abbrev pub idle_hw : HwServer
idle_hw = record {
  pc = check_running;
  running = true;
  auto_irq = true;
  page = zero_page;
  cmd_count = 0;
  irq_events = 0;
}

abbrev first_cmd : Cmd
first_cmd = record { opcode = 7; arg0 = 1; arg1 = 2 }

abbrev second_cmd : Cmd
second_cmd = record { opcode = 7; arg0 = 3; arg1 = 4 }

abbrev start : System
start = record { hw = idle_hw; client = write_opcode }

abbrev pub writes : List Turn
writes = replicate 4 client_turn

abbrev pub works : List Turn
works = replicate 17 hw_turn

abbrev reads : List Turn
reads = replicate 3 client_turn

pub zero-idle : has_start 0 ≡ false
zero-idle = unfold has_start in refl

start-Begins : Begins start
start-Begins = record { first = refl; idle = (zero-idle, tt); word = omega arith }

run_returns_example :
    (run default_handler first_cmd start (writes ++ (works ++ reads))).client ≡ done 1 2
run_returns_example =
    run_returns default_handler first_cmd start writes works reads
      (record { status = 0; data0 = 1; data1 = 2 }) start-Begins refl (λ p. cc)
      (unfold default_handler in refl) (omega arith) (omega arith) (omega arith) (omega arith)

run-done_example :
    (status : ℕ) × (default_handler zero_page.dma 7 1 2
      ≡ some (record { status = status; data0 = 1; data1 = 2 }))
run-done_example =
    run-done default_handler first_cmd start (writes ++ (works ++ reads)) 1 2 start-Begins
      run_returns_example

pub idle_hw-Waits : Waits idle_hw
idle_hw-Waits = record {
  clear = zero-idle;
  quiet = tt;
  word = omega arith;
  on = refl;
  awake = λ p. cc;
  dma_length = length-replicate {A = ℕ} dma_room 0;
  dma_bytes = IsBytes-replicate dma_room;
}

turns-IsFair : IsFair writes works reads
turns-IsFair = record {
  writes = omega arith;
  works = omega arith;
  polls = omega arith;
  reads = omega arith;
}

run-Ended_example :
    Ended (run default_handler first_cmd start (replicate max_turns client_turn)).client
run-Ended_example =
    run-Ended default_handler first_cmd (replicate max_turns client_turn) start
      (omega (arith, client_turns-replicate max_turns))

run_crossed_example :
    (ts : List PairTurn) × let t =
        Races.run default_handler first_cmd second_cmd
          (record { hw = waiting idle_hw; first = write_opcode; second = write_opcode })
          ts in
      (t.first ≡ done 3 4) × (t.second ≡ done 3 4)
run_crossed_example =
    run_crossed default_handler first_cmd second_cmd idle_hw
      (record { status = 0; data0 = 3; data1 = 4 }) (omega arith) (unfold default_handler in refl)

abbrev fresh_kernel : Kernel
fresh_kernel = record { fds = 3; maps = 5; named = false }

abbrev no_eventfd : Answers
no_eventfd = record { opens = true; truncates = true; mapped = some zero_page; events = false }

abbrev all_good : Answers
all_good = record { opens = true; truncates = true; mapped = some zero_page; events = true }

abbrev pub first_page : Page
first_page = record {
  regs = initial_regs;
  stats = record zero_page.stats { start_time_sec = 77 };
  dma = zero_page.dma;
}

first_page-served : server_init 77 fresh_kernel all_good ≡ some first_page
unfolding server_init served init init_open init_size init_map init_event new_transport initial_regs
first_page-served = refl

stop-Ends_example : Ends (hw_steps default_handler 16 (stop idle_hw)).pc
stop-Ends_example = stop-Ends default_handler idle_hw

abbrev zero_bytes : List ℕ
zero_bytes = replicate 512 0

access_agrees_example :
    (load32 0x104 zero_bytes ≡ get cmd_arg0 (regs_of zero_bytes))
    × (regs_of (store32 0x104 77 zero_bytes) ≡ put cmd_arg0 77 (regs_of zero_bytes))
access_agrees_example =
    access_agrees in_crc32_uapi cmd_arg0 0x104 77 zero_bytes (unfold offset_in crc32_uapi in refl)
      (omega arith) (omega (arith, length-replicate {A = ℕ} 512 0))
