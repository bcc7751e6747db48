-- ===== src/Tests/Appframework.antt =====
-- A breaker with the default configuration, and a pool of two devices.
use deepspan.Common.{
  ℕ, ◌≡◌, ◌↔◌, refl, Bool, true, false, none, some, List, [], ◌∷◌, replicate, get_or, arith,
}
use deepspan.CircuitBreaker.{open_, Config, Breaker, new, admit, admits, records, run}
use deepspan.CircuitBreaker.Invariant.{IsConfig, Inv, run-new-Inv}
use deepspan.CircuitBreaker.Refusal.{answers, open_refuses}
use deepspan.DevicePool.{DevicePool, acquire, grant, taken, move_construct, count_used, find_idle}
use deepspan.DevicePool.Ownership.{holders, flag, Reachable, opened, acquired, moved, one_holder}
use deepspan.DevicePool.Counting.{count_valid, exhausted}
use deepspan.SessionManager.{SessionManager, run_on, execute}
use deepspan.SessionManager.Execute.{execute_returns, executes, exhaustion_opens}

abbrev defaults : Config
defaults = record { failure_threshold = 5; success_threshold = 2; open_duration = 5000 }

defaults-IsConfig : IsConfig defaults
defaults-IsConfig = record {
  failures_pos = omega arith;
  failures_word = omega arith;
  successes_pos = omega arith;
  successes_word = omega arith;
}

run-new-Inv_example :
    Inv (run (new defaults) (admits 10 ∷ admits 11 ∷ records false 12 ∷ records true 13 ∷ []))
run-new-Inv_example =
    run-new-Inv defaults (admits 10 ∷ admits 11 ∷ records false 12 ∷ records true 13 ∷ [])
      defaults-IsConfig

abbrev tripped : Breaker
tripped = record {
  cfg = defaults;
  state = open_;
  failure_count = 5;
  success_count = 0;
  opened_at = 100;
}

open_refuses_example :
    answers tripped (admits 200 ∷ records true 300 ∷ admits 5000 ∷ []) ≡ false ∷ false ∷ []
open_refuses_example =
    open_refuses tripped (admits 200 ∷ records true 300 ∷ admits 5000 ∷ []) refl (omega arith)
      (omega arith, (omega arith, (omega arith, tt)))

abbrev five : List (ℕ × ℕ)
five = (1, 2) ∷ (3, 4) ∷ (5, 6) ∷ (7, 8) ∷ (9, 10) ∷ []

abbrev two_devices : DevicePool
two_devices = record { in_use = replicate 2 false; guards = [] }

abbrev one_taken : DevicePool
one_taken = record { in_use = true ∷ false ∷ []; guards = some 0 ∷ [] }

one_taken-acquired : acquire two_devices ≡ some one_taken
unfolding acquire grant taken find_idle
one_taken-acquired = refl

one_taken-Reachable : Reachable one_taken
one_taken-Reachable = acquired (opened 2) one_taken-acquired

one_holder_example :
    holders 1 (move_construct one_taken 0).guards
    ≡ flag (get_or (move_construct one_taken 0).in_use 1 false)
one_holder_example = one_holder (moved 0 one_taken-Reachable) 1

exhausted_example :
    (count_used one_taken.in_use ≡ count_valid one_taken.guards)
    × ((acquire one_taken ≡ none) ↔ (count_valid one_taken.guards ≡ 2))
exhausted_example = exhausted one_taken-Reachable

abbrev manager : SessionManager
manager = record { pool = one_taken; breaker = new defaults }

execute_returns_example :
    let (m', result) = execute manager (λ i. true) 10 20 in
    (m'.pool.in_use ≡ true ∷ false ∷ [])
    × ((result ≡ none) ↔ (
        ((admit (new defaults) 10).1 ≡ true)
        × (run_on (λ i. true) (find_idle (true ∷ false ∷ []) 0) ≡ true)))
execute_returns_example = execute_returns manager (λ i. true) 10 20

abbrev busy : SessionManager
busy = record { pool = record { in_use = true ∷ []; guards = some 0 ∷ [] }; breaker = new defaults }

abbrev try : ℕ → (ℕ → Bool) × ℕ × ℕ
try n = (λ i. true, n, n)

exhaustion_opens_example :
    (executes busy (try 1 ∷ try 2 ∷ try 3 ∷ try 4 ∷ try 5 ∷ [])).breaker.state ≡ open_
unfolding new
exhaustion_opens_example =
    exhaustion_opens busy (try 1 ∷ try 2 ∷ try 3 ∷ try 4 ∷ try 5 ∷ []) defaults-IsConfig (λ p. cc)
      refl (unfold count_used in refl) (omega arith)
