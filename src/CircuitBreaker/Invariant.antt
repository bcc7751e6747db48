-- ===== src/CircuitBreaker/Invariant.antt =====
-- What holds of a breaker between any two sections, whatever the interleaving of the calls.
use deepspan.Common.{◌^◌, ◌<◌, ◌≡◌, ◌≢◌, true, false, List, [], ◌∷◌, arith}
use deepspan.CircuitBreaker.{
  open_, half_open, Config, Breaker, new, admit, record_success, record_failure, record_result,
  reset, Event, admits, records, resets, step, run,
}

pub record IsConfig (c : Config) : Type 0 where
  pub failures_pos : 0 < c.failure_threshold
  pub failures_word : c.failure_threshold < 2 ^ 32
  pub successes_pos : 0 < c.success_threshold
  pub successes_word : c.success_threshold < 2 ^ 32

pub record Inv (b : Breaker) : Type 0 where
  pub config : IsConfig b.cfg
  pub failures_below : b.state ≢ open_ → b.failure_count < b.cfg.failure_threshold
  pub successes_below : b.success_count < b.cfg.success_threshold
  pub successes_half_open : b.state ≢ half_open → b.success_count ≡ 0

new-Inv : (c : Config) → IsConfig c → Inv (new c)
unfolding new
new-Inv c v = ground arith

step-Inv : (b : Breaker) (e : Event) → Inv b → Inv (step b e)
unfolding step admit record_result record_success record_failure reset
step-Inv b (admits now) v = ground arith
step-Inv b (records true now) v = ground arith
step-Inv b (records false now) v = ground arith
step-Inv b resets v = ground arith

run-Inv : (es : List Event) (b : Breaker) → Inv b → Inv (run b es)
unfolding run
run-Inv [] b v = v
run-Inv (e ∷ es) b v = run-Inv es (step b e) (step-Inv b e v)

-- With thresholds that are positive uint32_t, however the sections of concurrent calls and resets
-- interleave: a breaker that is not open has counted fewer failures than the threshold, and
-- successes are counted, below their threshold, only while it is half open.
pub run-new-Inv : (c : Config) (es : List Event) → IsConfig c → Inv (run (new c) es)
run-new-Inv c es v = run-Inv es (new c) (new-Inv c v)
