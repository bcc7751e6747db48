-- ===== src/Plugin/Progress.antt =====
-- `submit` comes back: what the hw-model and the client need of the interleaving.
use deepspan.Common.{
  ℕ, suc, ◌+◌, ◌≤◌, ◌<◌, ◌≡◌, ◌≢◌, refl, sym, ap, ◌∙◌, subst, Bool, true, false, some, List, [],
  ◌∷◌, ◌++◌, arith,
}
use deepspan.Shm.{Page}
use deepspan.Shm.Ctrl.{has_start, has_start-clear_start}
use deepspan.HwModel.{
  HwServer, HwPc, Reply, CmdHandler, check_running, load_ctrl, read_opcode, read_arg0, read_arg1,
  handling, write_data0, write_data1, write_status, write_count, write_last_opcode,
  write_last_status, clearing, set_ready, raise_bits, raise_event, exited, crashed, hw_step, exec,
}
use deepspan.Plugin.{
  Cmd, ClientPc, write_opcode, write_arg0, write_arg1, starting, polling, read_data0, read_data1,
  done, max_polls, client_step, System, Turn, hw_turn, client_turn, step, run,
}
use deepspan.Plugin.Safety.{Inv, Begins, Begins-Inv, reply, run-Inv, step-Inv, run-done}

abbrev pub hw_turns : List Turn → ℕ
hw_turns [] = 0
hw_turns (hw_turn ∷ ts) = suc (hw_turns ts)
hw_turns (client_turn ∷ ts) = hw_turns ts

abbrev pub client_turns : List Turn → ℕ
client_turns [] = 0
client_turns (hw_turn ∷ ts) = client_turns ts
client_turns (client_turn ∷ ts) = suc (client_turns ts)

-- How many turns of the hw-model clear a START bit that is set.
abbrev rank : HwPc → ℕ
rank clearing = 1
rank (write_last_status r) = 2
rank (write_last_opcode op r) = 3
rank (write_count op r) = 4
rank (write_status op r) = 5
rank (write_data1 op r) = 6
rank (write_data0 op r) = 7
rank (handling op a0 a1) = 8
rank (read_arg1 op a0) = 9
rank (read_arg0 op) = 10
rank read_opcode = 11
rank load_ctrl = 12
rank check_running = 13
rank raise_event = 14
rank raise_bits = 15
rank set_ready = 16
rank exited = 17
rank crashed = 17

-- The register writes that are left, and none of the polls made.
abbrev Writing : ClientPc → ℕ → Type 0
Writing write_opcode n = n ≡ 4
Writing write_arg0 n = n ≡ 3
Writing write_arg1 n = n ≡ 2
Writing starting n = n ≡ 1
Writing (polling i) n = (i ≡ 0) × (n ≡ 0)
Writing _ n = ⊥

-- With `h` turns of the hw-model and `k` of the client to come, START is cleared in time.
abbrev Pending : ClientPc → HwPc → Bool → ℕ → ℕ → Type 0
Pending (polling i) hw true h k = (rank hw ≤ h) × (i + k < max_polls)
Pending (polling i) hw false h k = i + k < max_polls
Pending read_data0 hw b h k = Unit
Pending (read_data1 r0) hw b h k = Unit
Pending (done r0 r1) hw b h k = Unit
Pending _ hw b h k = ⊥

-- START is clear, and `k` turns of the client are enough.
abbrev Finishing : ClientPc → ℕ → Type 0
Finishing (polling i) k = (i < max_polls) × (3 ≤ k)
Finishing read_data0 k = 2 ≤ k
Finishing (read_data1 r0) k = 1 ≤ k
Finishing (done r0 r1) k = Unit
Finishing _ k = ⊥

abbrev IsDone : ClientPc → Type 0
IsDone client = (r0 : ℕ) × (r1 : ℕ) × (client ≡ done r0 r1)

record Alive (s : HwServer) : Type 0 where
  on : s.running ≡ true
  awake : s.pc ≢ exited

module _ (handler : CmdHandler) (c : Cmd) (dma : List ℕ) where
  run-append :
      (ts us : List Turn) (s : System)
      → run handler c s (ts ++ us) ≡ run handler c (run handler c s ts) us
  unfolding run
  run-append [] us s = refl
  run-append (t ∷ ts) us s = run-append ts us (step handler c s t)

  client_step-Writing :
      (client : ClientPc) (p : Page) (n : ℕ)
      → Writing client (suc n)
      → Writing (client_step c client p).0 n
  unfolding client_step
  client_step-Writing write_opcode p n w = omega arith
  client_step-Writing write_arg0 p n w = omega arith
  client_step-Writing write_arg1 p n w = omega arith
  client_step-Writing starting p n w = ground arith
  client_step-Writing (polling i) p n w = ground arith
  client_step-Writing _ p n w = absurd w

  Writing-zero : (client : ClientPc) → Writing client 0 → client ≡ polling 0
  Writing-zero write_opcode w = ground arith
  Writing-zero (polling i) w = ground arith
  Writing-zero _ w = ground arith

  run-Writing :
      (ts : List Turn) (s : System)
      → Writing s.client (client_turns ts)
      → (run handler c s ts).client ≡ polling 0
  unfolding run
  run-Writing [] s w = Writing-zero s.client w
  run-Writing (hw_turn ∷ ts) s w = run-Writing ts (step handler c s hw_turn) (unfold step in w)
  run-Writing (client_turn ∷ ts) s w =
      run-Writing ts (step handler c s client_turn)
        (unfold step in client_step-Writing s.client s.hw.page (client_turns ts) w)

  exec-Alive :
      (hw : HwPc) (s : HwServer) → s.running ≡ true → hw ≢ exited → Alive (exec handler hw s)
  unfolding exec
  exec-Alive check_running s v a = ground arith
  exec-Alive (handling op a0 a1) s v a = ground arith
  exec-Alive exited s v a = absurd (a refl)
  exec-Alive _ s v a = ground arith

  step-Alive : (s : System) (t : Turn) → Alive s.hw → Alive (step handler c s t).hw
  unfolding step hw_step
  step-Alive s hw_turn a = exec-Alive s.hw.pc s.hw a.on a.awake
  step-Alive s client_turn a = record { on = a.on; awake = a.awake }

  run-Alive : (ts : List Turn) (s : System) → Alive s.hw → Alive (run handler c s ts).hw
  unfolding run
  run-Alive [] s a = a
  run-Alive (t ∷ ts) s a = run-Alive ts (step handler c s t) (step-Alive s t a)

  client_step-Pending :
      (client : ClientPc) (hw : HwPc) (p : Page) (h k : ℕ)
      → Pending client hw (has_start p.regs.ctrl) h (suc k)
      → Pending (client_step c client p).0 hw (has_start (client_step c client p).1.regs.ctrl) h k
  unfolding client_step
  client_step-Pending (polling i) hw p h k w = ground arith
  client_step-Pending read_data0 hw p h k w = tt
  client_step-Pending (read_data1 r0) hw p h k w = tt
  client_step-Pending (done r0 r1) hw p h k w = tt
  client_step-Pending _ hw p h k w = absurd w

  module _ {r : Reply} (answers : reply handler c dma ≡ some r) where
    exec-Pending :
        (hw : HwPc) (client : ClientPc) (s : HwServer) (h k : ℕ)
        → s.running ≡ true
        → hw ≢ exited
        → Inv handler c dma client hw s.page
        → Pending client hw (has_start s.page.regs.ctrl) (suc h) k
        → Pending client (exec handler hw s).pc (has_start (exec handler hw s).page.regs.ctrl) h k
    unfolding exec
    exec-Pending check_running client s h k on awake v w = ground arith
    exec-Pending exited client s h k on awake v w = absurd (awake refl)
    exec-Pending clearing client s h k on awake v w =
        ground (arith, has_start-clear_start s.page.regs.ctrl v.word)
    exec-Pending _ client s h k on awake v w = ground arith

    run-Pending :
        (ts : List Turn) (s : System)
        → Alive s.hw
        → Inv handler c dma s.client s.hw.pc s.hw.page
        → Pending s.client s.hw.pc (has_start s.hw.page.regs.ctrl) (hw_turns ts) (client_turns ts)
        → let t = run handler c s ts in Pending t.client t.hw.pc (has_start t.hw.page.regs.ctrl) 0 0
    unfolding run
    run-Pending [] s a v w = w
    run-Pending (hw_turn ∷ ts) s a v w =
        run-Pending ts (step handler c s hw_turn) (step-Alive s hw_turn a)
          (step-Inv handler c dma s hw_turn v)
          (unfold step hw_step in
            exec-Pending s.hw.pc s.client s.hw (hw_turns ts) (client_turns ts) a.on a.awake v w)
    run-Pending (client_turn ∷ ts) s a v w =
        run-Pending ts (step handler c s client_turn) (step-Alive s client_turn a)
          (step-Inv handler c dma s client_turn v)
          (unfold step in
            client_step-Pending s.client s.hw.pc s.hw.page (hw_turns ts) (client_turns ts) w)

  client_step-Finishing :
      (client : ClientPc) (hw : HwPc) (p : Page) (k : ℕ)
      → has_start p.regs.ctrl ≡ false
      → Finishing client (suc k)
      → Finishing (client_step c client p).0 k
        × (has_start (client_step c client p).1.regs.ctrl ≡ false)
  unfolding client_step
  client_step-Finishing (polling i) hw p k e f = ground arith
  client_step-Finishing read_data0 hw p k e f = ground arith
  client_step-Finishing (read_data1 r0) hw p k e f = ground arith
  client_step-Finishing (done r0 r1) hw p k e f = ground arith
  client_step-Finishing _ hw p k e f = ground arith

  exec-clear :
      (hw : HwPc) (client : ClientPc) (s : HwServer) (k : ℕ)
      → has_start s.page.regs.ctrl ≡ false
      → Finishing client k
      → Inv handler c dma client hw s.page
      → has_start (exec handler hw s).page.regs.ctrl ≡ false
  unfolding exec
  exec-clear check_running client s k e f v = ground arith
  exec-clear clearing client s k e f v =
      ground (arith, has_start-clear_start s.page.regs.ctrl v.word)
  exec-clear _ client s k e f v = ground arith

  Finishing-zero : (client : ClientPc) → Finishing client 0 → IsDone client
  Finishing-zero (done r0 r1) f = (r0, r1, refl)
  Finishing-zero _ f = ground arith

  run-Finishing :
      (ts : List Turn) (s : System)
      → Inv handler c dma s.client s.hw.pc s.hw.page
      → has_start s.hw.page.regs.ctrl ≡ false
      → Finishing s.client (client_turns ts)
      → IsDone (run handler c s ts).client
  unfolding run
  run-Finishing [] s v e f = Finishing-zero s.client f
  run-Finishing (hw_turn ∷ ts) s v e f =
      run-Finishing ts (step handler c s hw_turn) (step-Inv handler c dma s hw_turn v)
        (unfold step hw_step in exec-clear s.hw.pc s.client s.hw (client_turns ts) e f v)
        (unfold step in f)
  run-Finishing (client_turn ∷ ts) s v e f =
      let (f', e') = client_step-Finishing s.client s.hw.pc s.hw.page (client_turns ts) e f in
      run-Finishing ts (step handler c s client_turn) (step-Inv handler c dma s client_turn v)
        (unfold step in e') (unfold step in f')

  rank-pos : (hw : HwPc) → 1 ≤ rank hw
  rank-pos clearing = omega arith
  rank-pos _ = omega arith

  rank-le : (hw : HwPc) → rank hw ≤ 17
  rank-le clearing = omega arith
  rank-le _ = omega arith

  Pending-start :
      (hw : HwPc) (b : Bool) (h k : ℕ) → 17 ≤ h → k < max_polls → Pending (polling 0) hw b h k
  Pending-start hw true h k ph pk = (omega (arith, rank-le hw), omega arith)
  Pending-start hw false h k ph pk = omega arith

  Pending-Finishing :
      (client : ClientPc) (hw : HwPc) (b : Bool) (p : Page) (k : ℕ)
      → has_start p.regs.ctrl ≡ b
      → Inv handler c dma client hw p
      → Pending client hw b 0 0
      → 3 ≤ k
      → (b ≡ false) × Finishing client k
  Pending-Finishing (polling i) hw true p k e v w h = absurd (omega (arith, rank-pos hw))
  Pending-Finishing (polling i) hw false p k e v w h = ground arith
  Pending-Finishing write_opcode hw b p k e v w h = absurd w
  Pending-Finishing _ hw b p k e v w h = ground arith

module _ (handler : CmdHandler) (c : Cmd) (s : System) (b : Begins s) where
  returns_some :
      (ts us vs : List Turn) (r : Reply)
      → Alive s.hw
      → reply handler c s.hw.page.dma ≡ some r
      → client_turns ts ≡ 4
      → 17 ≤ hw_turns us
      → client_turns us < max_polls
      → 3 ≤ client_turns vs
      → IsDone (run handler c (run handler c (run handler c s ts) us) vs).client
  returns_some ts us vs r a answers four seventeen polls three =
      let dma = s.hw.page.dma in
      let t = run handler c s ts in
      let u = run handler c t us in
      let v = Begins-Inv handler c s b in
      let vt = run-Inv handler c dma ts s v in
      let vu = run-Inv handler c dma us t vt in
      let at_poll : t.client ≡ polling 0 =
        run-Writing handler c dma ts s
          (subst (λ pc. Writing pc (client_turns ts)) (sym b.first) four) in
      let pending : Pending t.client t.hw.pc (has_start t.hw.page.regs.ctrl) (hw_turns us)
          (client_turns us) =
        subst
          (λ pc. Pending pc t.hw.pc (has_start t.hw.page.regs.ctrl) (hw_turns us) (client_turns us))
          (sym at_poll)
          (Pending-start handler c dma t.hw.pc (has_start t.hw.page.regs.ctrl) (hw_turns us)
            (client_turns us) seventeen polls) in
      let (clear, finishing) =
        Pending-Finishing handler c dma u.client u.hw.pc (has_start u.hw.page.regs.ctrl) u.hw.page
          (client_turns vs) refl vu
          (run-Pending handler c dma answers us t (run-Alive handler c dma ts s a) vt pending)
          three in
      run-Finishing handler c dma vs u vu clear finishing

-- `submit` comes back with the handler's answer, if the hw-model is running and its handler
-- answers the command: in every interleaving in which the client makes its four writes (`ts`),
-- the hw-model then makes at least 17 accesses before the client has polled `max_polls` times
-- (`us`), and the client goes on for three more (`vs`).
pub run_returns :
    (handler : CmdHandler) (c : Cmd) (s : System) (ts us vs : List Turn) (r : Reply)
    → Begins s
    → s.hw.running ≡ true
    → s.hw.pc ≢ exited
    → handler s.hw.page.dma c.opcode c.arg0 c.arg1 ≡ some r
    → client_turns ts ≡ 4
    → 17 ≤ hw_turns us
    → client_turns us < max_polls
    → 3 ≤ client_turns vs
    → (run handler c s (ts ++ (us ++ vs))).client ≡ done r.data0 r.data1
run_returns handler c s ts us vs r b on awake answers four seventeen polls three =
    let split =
      run-append handler c s.hw.page.dma ts (us ++ vs) s
      ∙ run-append handler c s.hw.page.dma us vs (run handler c s ts) in
    let (r0, r1, e) =
      returns_some handler c s b ts us vs r (record { on = on; awake = awake }) answers four
        seventeen polls three in
    let e' : (run handler c s (ts ++ (us ++ vs))).client ≡ done r0 r1 =
      ap (λ (t : System). t.client) split ∙ e in
    let (status, same) = run-done handler c s (ts ++ (us ++ vs)) r0 r1 b e' in
    cc (e', same, answers)
