-- ===== src/Plugin/Races.antt =====
-- Two plugin objects on one page. `submit_mutex_` is a member of the plugin, and the server makes
-- a new plugin for each RPC (HwipRegistry::create), so two RPCs on one device run like this.
use deepspan.Common.{
  ℕ, zero, suc, ◌^◌, ◌<◌, ◌≡◌, refl, ap, ap₂, ◌∙◌, true, false, some, List, [], ◌∷◌, ◌++◌,
  replicate, arith,
}
use deepspan.Shm.Ctrl.{
  has_start, set_start, has_start-set_start, has_start-clear_start, set_start-lt,
}
use deepspan.HwModel.{HwServer, Reply, CmdHandler, check_running, hw_step, exec, answer}
use deepspan.Plugin.{Cmd, ClientPc, write_opcode, polling, done, client_step}

pub record Pair : Type 0 where
  pub hw : HwServer
  pub first : ClientPc
  pub second : ClientPc

pub data PairTurn : Type 0 where
  hw_turn first_turn second_turn : PairTurn

module _ (handler : CmdHandler) (c d : Cmd) where
  pub step : Pair → PairTurn → Pair
  step s hw_turn = record s { hw = hw_step handler s.hw }
  step s first_turn =
      let (pc, page) = client_step c s.first s.hw.page in
      record s { hw = record s.hw { page = page }; first = pc }
  step s second_turn =
      let (pc, page) = client_step d s.second s.hw.page in
      record s { hw = record s.hw { page = page }; second = pc }

  pub run : Pair → List PairTurn → Pair
  run s [] = s
  run s (t ∷ ts) = run (step s t) ts

-- A hw-model that runs and looks for a command.
hw_steps : CmdHandler → ℕ → HwServer → HwServer
hw_steps handler zero s = s
hw_steps handler (suc n) s = hw_steps handler n (hw_step handler s)

abbrev pub waiting : HwServer → HwServer
waiting s = record s { pc = check_running; running = true }

hw_serves :
    (handler : CmdHandler) (s : HwServer) (r : Reply)
    → has_start s.page.regs.ctrl ≡ true
    → s.page.regs.ctrl < 2 ^ 32
    → handler s.page.dma s.page.regs.cmd_opcode s.page.regs.cmd_arg0 s.page.regs.cmd_arg1 ≡ some r
    → let t = hw_steps handler 13 (waiting s) in
      (has_start t.page.regs.ctrl ≡ false)
      × (t.page.regs.result_data0 ≡ r.data0)
      × (t.page.regs.result_data1 ≡ r.data1)
unfolding hw_steps hw_step exec answer
hw_serves handler s r e word answers =
    rw (e, answers) (has_start-clear_start s.page.regs.ctrl word, refl, refl)

module _ (handler : CmdHandler) (c d : Cmd) where
  run-hw_turns :
      (n : ℕ) (s : Pair) (ts : List PairTurn)
      → run handler c d s (replicate n hw_turn ++ ts)
        ≡ run handler c d (record s { hw = hw_steps handler n s.hw }) ts
  unfolding run step hw_steps
  run-hw_turns zero s ts = refl
  run-hw_turns (suc n) s ts = run-hw_turns n (record s { hw = hw_step handler s.hw }) ts

  both_read :
      (hw : HwServer)
      → has_start hw.page.regs.ctrl ≡ false
      → let t =
          run handler c d
            (record { hw = hw; first = polling 0; second = polling 0 })
            (replicate 3 first_turn ++ replicate 3 second_turn) in
        (t.first ≡ done hw.page.regs.result_data0 hw.page.regs.result_data1)
        × (t.second ≡ done hw.page.regs.result_data0 hw.page.regs.result_data1)
  unfolding run step client_step
  both_read hw e = (ground arith, ground arith)

-- The second writes its command over the first's before START is set.
abbrev writes : List PairTurn → List PairTurn
writes ts = replicate 3 first_turn ++ (replicate 3 second_turn ++ (first_turn ∷ second_turn ∷ ts))

abbrev reads : List PairTurn
reads = replicate 3 first_turn ++ replicate 3 second_turn

abbrev pub overwritten : List PairTurn
overwritten = writes (replicate 13 hw_turn ++ reads)

module _ (handler : CmdHandler) (c d : Cmd) where
  both_write :
      (hw : HwServer) (ts : List PairTurn)
      → run handler c d
          (record { hw = hw; first = write_opcode; second = write_opcode })
          (writes ts)
        ≡ run handler c d
            (record {
              hw = record hw {
                page = record hw.page {
                  regs = record hw.page.regs {
                    ctrl = set_start (set_start hw.page.regs.ctrl);
                    cmd_opcode = d.opcode;
                    cmd_arg0 = d.arg0;
                    cmd_arg1 = d.arg1;
                  };
                };
              };
              first = polling 0;
              second = polling 0;
            })
            ts
  unfolding run step client_step
  both_write hw ts = refl

-- For any two commands, a hw-model that waits and a handler that answers the second command:
-- there is an interleaving in which the first call of `submit` returns, as its own, the answer to
-- the second's command.
pub run_crossed :
    (handler : CmdHandler) (c d : Cmd) (hw : HwServer) (r : Reply)
    → hw.page.regs.ctrl < 2 ^ 32
    → handler hw.page.dma d.opcode d.arg0 d.arg1 ≡ some r
    → (ts : List PairTurn) × let t =
          run handler c d
            (record { hw = waiting hw; first = write_opcode; second = write_opcode })
            ts in
        (t.first ≡ done r.data0 r.data1) × (t.second ≡ done r.data0 r.data1)
run_crossed handler c d hw r word answers = (
  overwritten,
  (
    ap (λ (t : Pair). t.first) crossed ∙ both.0 ∙ result,
    ap (λ (t : Pair). t.second) crossed ∙ both.1 ∙ result,
  ),
)
  where
    started : HwServer
    started = record hw {
      page = record hw.page {
        regs = record hw.page.regs {
          ctrl = set_start (set_start hw.page.regs.ctrl);
          cmd_opcode = d.opcode;
          cmd_arg0 = d.arg0;
          cmd_arg1 = d.arg1;
        };
      };
    }

    served : HwServer
    served = hw_steps handler 13 (waiting started)

    serves :
        (has_start served.page.regs.ctrl ≡ false)
        × (served.page.regs.result_data0 ≡ r.data0)
        × (served.page.regs.result_data1 ≡ r.data1)
    serves =
        hw_serves handler started r (has_start-set_start (set_start hw.page.regs.ctrl))
          (set_start-lt (set_start hw.page.regs.ctrl) (set_start-lt hw.page.regs.ctrl word)) answers

    crossed :
        run handler c d
          (record { hw = waiting hw; first = write_opcode; second = write_opcode })
          overwritten
        ≡ run handler c d (record { hw = served; first = polling 0; second = polling 0 }) reads
    crossed =
        both_write handler c d (waiting hw) (replicate 13 hw_turn ++ reads)
        ∙ run-hw_turns handler c d 13
            (record { hw = waiting started; first = polling 0; second = polling 0 }) reads

    both :
        let t =
          run handler c d (record { hw = served; first = polling 0; second = polling 0 }) reads in
        (t.first ≡ done served.page.regs.result_data0 served.page.regs.result_data1)
        × (t.second ≡ done served.page.regs.result_data0 served.page.regs.result_data1)
    both = both_read handler c d served serves.0

    result : done served.page.regs.result_data0 served.page.regs.result_data1 ≡ done r.data0 r.data1
    result = ap₂ done serves.1 serves.2
