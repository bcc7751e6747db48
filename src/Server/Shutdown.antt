-- ===== src/Server/Shutdown.antt =====
-- How deepspan-server ends (server/src/main.cpp): `main` from the gRPC server that it has built
-- on, a statement at a time, and SIGTERM and SIGINT between any two. That Wait() returns once
-- Shutdown() has been called, before it or meanwhile, is gRPC's.
use deepspan.Common.{
  ℕ, zero, suc, ◌+◌, ◌≤◌, ◌-◌, ◌≡◌, refl, ap, ◌∙◌, Bool, true, false, if◌then◌else◌, List, [], ◌∷◌,
  ◌++◌, arith, replicate, ◌⊎◌,
}

pub data Signal : Type 0 where
  sigterm sigint : Signal

-- Where `main` stands; `killed` is what a signal without a handler makes of the process.
pub data MainPc : Type 0 where
  set_server install_term install_int waiting clear_server returned killed : MainPc

pub record Process : Type 0 where
  pub pc : MainPc
  -- g_server is not null.
  pub server : Bool
  -- g_shutdown
  pub shutdown : Bool
  pub handles_term : Bool
  pub handles_int : Bool
  -- The gRPC server has not been shut down.
  pub serving : Bool

abbrev pub built : Process
built = record {
  pc = set_server;
  server = false;
  shutdown = false;
  handles_term = false;
  handles_int = false;
  serving = true;
}

unfoldable pub main_step : MainPc → Process → Process
main_step set_server s = record s { pc = install_term; server = true }
main_step install_term s = record s { pc = install_int; handles_term = true }
main_step install_int s = record s { pc = waiting; handles_int = true }
main_step waiting s = if s.serving then s else record s { pc = clear_server }
main_step clear_server s = record s { pc = returned; server = false }
main_step returned s = s
main_step killed s = s

unfoldable pub signal_handler : Process → Process
signal_handler s =
    if s.server then record s { shutdown = true; serving = false } else record s { shutdown = true }

abbrev pub handles : Signal → Process → Bool
handles sigterm s = s.handles_term
handles sigint s = s.handles_int

-- A process that has ended receives no signal.
unfoldable pub deliver : MainPc → Signal → Process → Process
unfolding signal_handler
deliver returned sig s = s
deliver killed sig s = s
deliver _ sig s = if handles sig s then signal_handler s else record s { pc = killed }

pub data Turn : Type 0 where
  main_turn : Turn
  signal_turn : Signal → Turn

unfoldable pub step : Process → Turn → Process
unfolding main_step deliver
step s main_turn = main_step s.pc s
step s (signal_turn sig) = deliver s.pc sig s

unfoldable pub run : Process → List Turn → Process
unfolding step
run s [] = s
run s (t ∷ ts) = run (step s t) ts

pub main_turns : List Turn → ℕ
main_turns [] = 0
main_turns (main_turn ∷ ts) = 1 + main_turns ts
main_turns (signal_turn sig ∷ ts) = main_turns ts

run-append : (s : Process) (ts us : List Turn) → run s (ts ++ us) ≡ run (run s ts) us
unfolding run
run-append s [] us = refl
run-append s (t ∷ ts) us = run-append (step s t) ts us

-- From the last registration on.
abbrev pub IsReady : MainPc → Process → Type 0
IsReady waiting s = (s.server ≡ true) × (s.handles_term ≡ true) × (s.handles_int ≡ true)
IsReady clear_server s = (s.handles_term ≡ true) × (s.handles_int ≡ true)
IsReady returned s = Unit
IsReady _ s = ⊥

-- Shutdown() has been called.
abbrev IsStopping : MainPc → Process → Type 0
IsStopping waiting s = s.serving ≡ false
IsStopping _ s = Unit

left : MainPc → ℕ
left waiting = 2
left clear_server = 1
left _ = 0

left-zero : (pc : MainPc) (s : Process) → IsReady pc s → left pc ≡ 0 → pc ≡ returned
unfolding left
left-zero returned s h e = refl
left-zero _ s h e = ground arith

step-IsReady :
    (pc : MainPc) (t : Turn) (s : Process)
    → s.pc ≡ pc
    → IsReady pc s
    → IsReady (step s t).pc (step s t)
unfolding step main_step deliver signal_handler
step-IsReady pc main_turn s e h = ground arith
step-IsReady pc (signal_turn sigterm) s e h = ground arith
step-IsReady pc (signal_turn sigint) s e h = ground arith

main_step-IsStopping :
    (pc : MainPc) (s : Process)
    → s.pc ≡ pc
    → IsReady pc s
    → IsStopping pc s
    → IsStopping (step s main_turn).pc (step s main_turn)
      × (left (step s main_turn).pc ≤ left pc - 1)
unfolding step main_step left
main_step-IsStopping pc s e h k = ground arith

deliver-IsStopping :
    (pc : MainPc) (sig : Signal) (s : Process)
    → s.pc ≡ pc
    → IsReady pc s
    → IsStopping (step s (signal_turn sig)).pc (step s (signal_turn sig))
      × (left (step s (signal_turn sig)).pc ≤ left pc)
unfolding step deliver signal_handler left
deliver-IsStopping pc sigterm s e h = ground arith
deliver-IsStopping pc sigint s e h = ground arith

stopping_run :
    (ts : List Turn) (s : Process)
    → IsReady s.pc s
    → IsStopping s.pc s
    → left s.pc ≤ main_turns ts
    → (run s ts).pc ≡ returned
unfolding run main_turns
stopping_run [] s h k l = left-zero s.pc s h (omega arith)
stopping_run (main_turn ∷ ts) s h k l =
    let (k', l') = main_step-IsStopping s.pc s refl h k in
    stopping_run ts (step s main_turn) (step-IsReady s.pc main_turn s refl h) k' (omega arith)
stopping_run (signal_turn sig ∷ ts) s h k l =
    let (k', l') = deliver-IsStopping s.pc sig s refl h in
    stopping_run ts (step s (signal_turn sig)) (step-IsReady s.pc (signal_turn sig) s refl h) k'
      (omega arith)

run-IsReady : (ts : List Turn) (s : Process) → IsReady s.pc s → IsReady (run s ts).pc (run s ts)
unfolding run
run-IsReady [] s h = h
run-IsReady (t ∷ ts) s h = run-IsReady ts (step s t) (step-IsReady s.pc t s refl h)

left-le : (pc : MainPc) → left pc ≤ 2
unfolding left
left-le pc = ground arith

-- Once both handlers are installed, a SIGTERM or SIGINT at any point makes `main` return, whether
-- it comes before Wait() or meanwhile and whatever other signals do, after two more turns of its
-- own.
pub signal_stops :
    (s : Process) (ts us : List Turn) (sig : Signal)
    → IsReady s.pc s
    → 2 ≤ main_turns us
    → (run s (ts ++ signal_turn sig ∷ us)).pc ≡ returned
unfolding run
signal_stops s ts us sig h l =
    let q = run s ts in
    let ready : IsReady q.pc q = run-IsReady ts s h in
    let (k, m) = deliver-IsStopping q.pc sig q refl ready in
    ap (λ p. p.pc) (run-append s ts (signal_turn sig ∷ us))
    ∙ stopping_run us (step q (signal_turn sig)) (step-IsReady q.pc (signal_turn sig) q refl ready)
        k (omega (arith, left-le (step q (signal_turn sig)).pc))

killed_stays : (us : List Turn) (s : Process) → s.pc ≡ killed → (run s us).pc ≡ killed
unfolding run step main_step deliver
killed_stays [] s e = e
killed_stays (main_turn ∷ us) s e = killed_stays us (step s main_turn) (ground arith)
killed_stays (signal_turn sig ∷ us) s e = killed_stays us (step s (signal_turn sig)) (ground arith)

-- A signal that comes before the handler of its kind is installed kills the process instead, with
-- the server built and not shut down.
pub early_signal :
    (s : Process) (sig : Signal) (us : List Turn)
    → (s.pc ≡ set_server) ⊎ ((s.pc ≡ install_term) ⊎ ((s.pc ≡ install_int) × (sig ≡ sigint)))
    → handles sig s ≡ false
    → ((run s (signal_turn sig ∷ us)).pc ≡ killed)
      × ((step s (signal_turn sig)).serving ≡ s.serving)
unfolding run step deliver
early_signal s sig us h e =
    (killed_stays us (step s (signal_turn sig)) (ground arith), ground arith)

-- Without a signal the server waits, however many turns it has.
waits :
    (n : ℕ) (s : Process) → s.pc ≡ waiting → s.serving ≡ true → run s (replicate n main_turn) ≡ s
unfolding run step main_step
waits zero s e h = refl
waits (suc n) s e h =
    let same : step s main_turn ≡ s = ground arith in
    ap (λ q. run q (replicate n main_turn)) same ∙ waits n s e h

pub built-waits :
    (n : ℕ) → (run built (main_turn ∷ main_turn ∷ main_turn ∷ replicate n main_turn)).pc ≡ waiting
unfolding run step main_step
built-waits n =
    ap (λ q. q.pc) (waits n (run built (main_turn ∷ main_turn ∷ main_turn ∷ [])) refl refl)
