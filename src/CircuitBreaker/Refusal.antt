-- ===== src/CircuitBreaker/Refusal.antt =====
-- What an open breaker refuses, and what it lets through once its time has elapsed.
use deepspan.Common.{
  ℕ, suc, ◌+◌, ◌-◌, ◌<◌, ◌≤◌, ◌≡◌, refl, ap₂, Bool, true, false, List, [], ◌∷◌, replicate, length,
  arith,
}
use deepspan.CircuitBreaker.{
  open_, half_open, Breaker, admit, record_success, record_failure, record_result, call, Event,
  admits, records, resets, step,
}

-- Before `deadline`, and with no reset; failures are recorded at `start` or later.
abbrev pub IsEarly : ℕ → ℕ → List Event → Type 0
IsEarly start deadline [] = Unit
IsEarly start deadline (admits now ∷ es) = (now < deadline) × IsEarly start deadline es
IsEarly start deadline (records ok now ∷ es) = (start ≤ now) × IsEarly start deadline es
IsEarly start deadline (resets ∷ es) = ⊥

-- The answers of `admit` along a run.
pub answers : Breaker → List Event → List Bool
answers b [] = []
answers b (admits now ∷ es) = (admit b now).1 ∷ answers (step b (admits now)) es
answers b (records ok now ∷ es) = answers (step b (records ok now)) es
answers b (resets ∷ es) = answers (step b resets) es

abbrev pub admissions : List Event → ℕ
admissions [] = 0
admissions (admits now ∷ es) = suc (admissions es)
admissions (records ok now ∷ es) = admissions es
admissions (resets ∷ es) = admissions es

-- A breaker that opened at `start` or later and stays open for a positive time.
record Holds (start deadline : ℕ) (b : Breaker) : Type 0 where
  is_open : b.state ≡ open_
  since : start ≤ b.opened_at
  long : deadline ≤ start + b.cfg.open_duration
  positive : 0 < b.cfg.open_duration

admits-Holds :
    (start deadline now : ℕ) (b : Breaker)
    → Holds start deadline b
    → now < deadline
    → ((admit b now).1 ≡ false) × Holds start deadline (step b (admits now))
unfolding step admit
admits-Holds start deadline now b h e = ground arith

records-Holds :
    (start deadline now : ℕ) (ok : Bool) (b : Breaker)
    → Holds start deadline b
    → start ≤ now
    → Holds start deadline (step b (records ok now))
unfolding step record_result record_success record_failure
records-Holds start deadline now true b h e = ground arith
records-Holds start deadline now false b h e = ground arith

answers-Holds :
    (start deadline : ℕ) (b : Breaker) (es : List Event)
    → Holds start deadline b
    → IsEarly start deadline es
    → answers b es ≡ replicate (admissions es) false
unfolding answers
answers-Holds start deadline b [] h e = refl
answers-Holds start deadline b (admits now ∷ es) h e =
    let (no_, h') = admits-Holds start deadline now b h e.0 in
    ap₂ ◌∷◌ no_ (answers-Holds start deadline (step b (admits now)) es h' e.1)
answers-Holds start deadline b (records ok now ∷ es) h e =
    answers-Holds start deadline (step b (records ok now)) es
      (records-Holds start deadline now ok b h e.0) e.1
answers-Holds start deadline b (resets ∷ es) h e = absurd e

-- While a breaker with a positive open duration is open, every call that asks before that time
-- has elapsed is refused, whatever results of earlier calls come in meanwhile, successes among
-- them, if no reset does.
pub open_refuses :
    (b : Breaker) (es : List Event)
    → b.state ≡ open_
    → 0 < b.cfg.open_duration
    → IsEarly b.opened_at (b.opened_at + b.cfg.open_duration) es
    → answers b es ≡ replicate (admissions es) false
open_refuses b es e d early =
    answers-Holds b.opened_at (b.opened_at + b.cfg.open_duration) b es (ground arith) early

-- A refused call does not run `f`, returns false and changes nothing.
pub refused_call :
    (b : Breaker) (ok : Bool) (now after : ℕ)
    → b.state ≡ open_
    → now - b.opened_at < b.cfg.open_duration
    → call b ok now after ≡ (b, false, false)
unfolding call admit
refused_call b ok now after e h = ground arith

pub asks : List ℕ → List Event
asks [] = []
asks (now ∷ ts) = admits now ∷ asks ts

half_open-answers :
    (b : Breaker) (ts : List ℕ)
    → b.state ≡ half_open
    → answers b (asks ts) ≡ replicate (length ts) true
unfolding answers asks
half_open-answers b [] e = refl
half_open-answers b (now ∷ ts) e =
    ap₂ ◌∷◌ (unfold admit in ground arith)
      (half_open-answers (step b (admits now)) ts (unfold step admit in ground arith))

-- Once the open duration has elapsed, the call that finds it so is let through, and so is every
-- further call before a result comes in, as many as there are: there is no single probe.
pub elapsed_admits_all :
    (b : Breaker) (now : ℕ) (ts : List ℕ)
    → b.state ≡ open_
    → b.cfg.open_duration ≤ now - b.opened_at
    → answers b (asks (now ∷ ts)) ≡ replicate (length (now ∷ ts)) true
unfolding answers asks
elapsed_admits_all b now ts e h =
    ap₂ ◌∷◌ (unfold admit in ground arith)
      (half_open-answers (step b (admits now)) ts (unfold step admit in ground arith))
