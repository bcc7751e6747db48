-- ===== src/CircuitBreaker.antt =====
-- runtime/appframework/src/circuit_breaker.cpp. `call` holds the mutex twice, before and after
-- `f` runs: `admit` and `record` are these two sections, for other calls may stand between them.
-- Time is the steady clock in milliseconds, from 0 for `opened_at_ = {}`.
pub mod Invariant
pub mod Refusal
pub mod Recovery
use deepspan.Common.{ℕ, ◌+◌, ◌-◌, ◌%◌, ◌^◌, Bool, true, false, if◌then◌else◌, leb, List, [], ◌∷◌}

pub data State : Type 0 where
  closed open_ half_open : State

pub record Config : Type 0 where
  pub failure_threshold : ℕ
  pub success_threshold : ℕ
  pub open_duration : ℕ

pub record Breaker : Type 0 where
  pub cfg : Config
  pub state : State
  pub failure_count : ℕ
  pub success_count : ℕ
  pub opened_at : ℕ

unfoldable pub new : Config → Breaker
new cfg = record { cfg = cfg; state = closed; failure_count = 0; success_count = 0; opened_at = 0 }

-- The first section of `call`: may `f` run?
unfoldable pub admit : Breaker → ℕ → Breaker × Bool
admit b now = elim b.state [
  | open_ ↦
      if leb b.cfg.open_duration (now - b.opened_at)
      then (record b { state = half_open; failure_count = 0 }, true)
      else (b, false)
  | _ ↦ (b, true)
]

unfoldable pub record_success : Breaker → Breaker
record_success b = elim b.state [
  | half_open ↦
      let count = (b.success_count + 1) % 2 ^ 32 in
      if leb b.cfg.success_threshold count
      then record b { state = closed; failure_count = 0; success_count = 0 }
      else record b { success_count = count }
  | _ ↦ record b { failure_count = 0; success_count = 0 }
]

unfoldable pub record_failure : Breaker → ℕ → Breaker
record_failure b now =
    let count = (b.failure_count + 1) % 2 ^ 32 in
    if leb b.cfg.failure_threshold count
    then record b { failure_count = count; success_count = 0; state = open_; opened_at = now }
    else record b { failure_count = count; success_count = 0 }

-- The second section of `call`.
unfoldable pub record_result : Breaker → Bool → ℕ → Breaker
record_result b true now = record_success b
record_result b false now = record_failure b now

-- A whole call that no other call interrupts: `ok` is what `f` would return, `now` and `after` are
-- the times of the two sections. The result is what `call` returns, and whether `f` ran.
unfoldable pub call : Breaker → Bool → ℕ → ℕ → Breaker × Bool × Bool
call b ok now after =
    let (b', admitted) = admit b now in
    if admitted then (record_result b' ok after, ok, true) else (b', false, false)

unfoldable pub reset : Breaker → Breaker
reset b = record b { state = closed; failure_count = 0; success_count = 0; opened_at = 0 }

-- The sections of concurrent calls, in the order in which they get the mutex.
pub data Event : Type 0 where
  admits : ℕ → Event
  records : Bool → ℕ → Event
  resets : Event

unfoldable pub step : Breaker → Event → Breaker
step b (admits now) = (admit b now).0
step b (records ok now) = record_result b ok now
step b resets = reset b

unfoldable pub run : Breaker → List Event → Breaker
run b [] = b
run b (e ∷ es) = run (step b e) es
