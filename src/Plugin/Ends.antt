-- ===== src/Plugin/Ends.antt =====
-- The wait of `submit` is bounded, whatever the hw-model does.
use deepspan.Common.{
  ℕ, ◌+◌, ◌-◌, ◌≤◌, ◌≡◌, ◌⊎◌, inl, inr, refl, List, [], ◌∷◌, ◌++◌, replicate, zero, suc, arith,
}
use deepspan.Shm.{Page}
use deepspan.HwModel.{CmdHandler}
use deepspan.Plugin.{
  Cmd, ClientPc, write_opcode, write_arg0, write_arg1, starting, polling, read_data0, read_data1,
  done, timed_out, max_polls, client_step, System, Turn, hw_turn, client_turn, step, run,
}
use deepspan.Plugin.Progress.{client_turns}

-- Four writes, the polls and the one that finds their limit, and two reads.
abbrev pub max_turns : ℕ
max_turns = max_polls + 8

abbrev rank : ClientPc → ℕ
rank write_opcode = max_turns
rank write_arg0 = max_polls + 7
rank write_arg1 = max_polls + 6
rank starting = max_polls + 5
rank (polling i) = max_polls - i + 4
rank read_data0 = 2
rank (read_data1 r0) = 1
rank (done r0 r1) = 0
rank timed_out = 0

-- The call has returned or thrown.
abbrev pub Ended : ClientPc → Type 0
Ended pc = ((r0 : ℕ) × (r1 : ℕ) × (pc ≡ done r0 r1)) ⊎ (pc ≡ timed_out)

rank-Ended : (pc : ClientPc) → rank pc ≡ 0 → Ended pc
rank-Ended (done r0 r1) e = inl (r0, r1, refl)
rank-Ended timed_out e = inr refl
rank-Ended _ e = absurd (omega arith)

rank-le : (pc : ClientPc) → rank pc ≤ max_turns
rank-le write_opcode = omega arith
rank-le _ = omega arith

rank-client_step : (c : Cmd) (pc : ClientPc) (p : Page) → rank (client_step c pc p).0 ≤ rank pc - 1
unfolding client_step
rank-client_step c (polling i) p = ground arith
rank-client_step c _ p = omega arith

module _ (handler : CmdHandler) (c : Cmd) where
  rank-run :
      (ts : List Turn) (s : System)
      → rank (run handler c s ts).client ≤ rank s.client - client_turns ts
  unfolding run step
  rank-run [] s = omega arith
  rank-run (hw_turn ∷ ts) s = rank-run ts (step handler c s hw_turn)
  rank-run (client_turn ∷ ts) s =
      omega
        (arith, rank-run ts (step handler c s client_turn), rank-client_step c s.client s.hw.page)

  -- `submit` comes back: after 50008 turns of the client, wherever those of the hw-model lie and
  -- whatever it does or fails to do, the call has returned two words or thrown its timeout.
  pub run-Ended :
      (ts : List Turn) (s : System)
      → max_turns ≤ client_turns ts
      → Ended (run handler c s ts).client
  run-Ended ts s h =
      rank-Ended (run handler c s ts).client (omega (arith, rank-run ts s, rank-le s.client))

pub client_turns-append :
    (ts us : List Turn) → client_turns (ts ++ us) ≡ client_turns ts + client_turns us
client_turns-append [] us = omega arith
client_turns-append (hw_turn ∷ ts) us = client_turns-append ts us
client_turns-append (client_turn ∷ ts) us = omega (arith, client_turns-append ts us)

pub client_turns-replicate : (n : ℕ) → client_turns (replicate n client_turn) ≡ n
client_turns-replicate zero = refl
client_turns-replicate (suc n) = omega (arith, client_turns-replicate n)
