-- ===== src/SessionManager.antt =====
-- runtime/appframework/src/session_manager.cpp: `execute`, which runs a function on a device of
-- the pool inside the circuit breaker's `call`.
-- The function is a parameter: what it returns for each entry. What it does to the client, and a
-- pool that other threads use meanwhile, are outside.
pub mod Execute
pub mod Create
use deepspan.Common.{
  ℕ, Bool, true, false, if◌then◌else◌, Option, none, some, get_or, length, ◌++◌, [],
}
use deepspan.CircuitBreaker.{Breaker, State, call}
use deepspan.DevicePool.{DevicePool, acquire, destroy}

pub data Error : Type 0 where
  submit_failed : Error

pub record SessionManager : Type 0 where
  pub pool : DevicePool
  pub breaker : Breaker

-- What the new guard, which stands last, holds.
unfoldable pub granted : DevicePool → DevicePool → Option ℕ
granted before after = get_or after.guards (length before.guards) none

unfoldable pub run_on : (ℕ → Bool) → Option ℕ → Bool
run_on f none = false
run_on f (some i) = f i

-- The lambda of `execute`: the guard is destroyed when it returns.
unfoldable pub body : DevicePool → (ℕ → Bool) → DevicePool × Bool
body p f = elim (acquire p) [
  | none ↦ (p, false)
  | some p' ↦ (destroy p' (length p.guards), run_on f (granted p p'))
]

-- `now` and `after` are the times at which the breaker looks at its clock. `none` is success.
unfoldable pub execute : SessionManager → (ℕ → Bool) → ℕ → ℕ → SessionManager × Option Error
execute m f now after =
    let (p, ok) = body m.pool f in
    let (b, returned, ran) = call m.breaker ok now after in
    (
      record { pool = if ran then p else m.pool; breaker = b },
      if returned then none else some submit_failed,
    )

abbrev pub circuit_state : SessionManager → State
circuit_state m = m.breaker.state
