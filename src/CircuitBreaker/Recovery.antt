-- ===== src/CircuitBreaker/Recovery.antt =====
-- The counts: when consecutive failures open a breaker, and when successes close it again.
use deepspan.Common.{
  ℕ, ◌+◌, ◌-◌, ◌<◌, ◌≤◌, ◌≡◌, ◌≢◌, refl, sym, ap, subst, ◌∙◌, true, false, List, [], ◌∷◌, length,
  ltb, ltb→lt, if◌then◌else◌, Bool-cases, inl, inr, arith,
}
use deepspan.CircuitBreaker.{
  State, closed, open_, half_open, Breaker, admit, record_success, record_failure, record_result,
  call,
}
use deepspan.CircuitBreaker.Invariant.{IsConfig, Inv}

-- Calls one after the other whose `f` fails, with the times of their two sections.
unfoldable pub fail_calls : Breaker → List (ℕ × ℕ) → Breaker
fail_calls b [] = b
fail_calls b ((now, after) ∷ ts) = fail_calls (call b false now after).0 ts

unfoldable pub succeed_calls : Breaker → List (ℕ × ℕ) → Breaker
succeed_calls b [] = b
succeed_calls b ((now, after) ∷ ts) = succeed_calls (call b true now after).0 ts

failing_call :
    (b : Breaker) (now after : ℕ)
    → IsConfig b.cfg
    → b.state ≢ open_
    → b.failure_count < b.cfg.failure_threshold
    → let b' = (call b false now after).0 in
      (b'.cfg ≡ b.cfg)
      × (b'.failure_count ≡ b.failure_count + 1)
      × (b.failure_count + 1 < b.cfg.failure_threshold → b'.state ≡ b.state)
      × (b.failure_count + 1 ≡ b.cfg.failure_threshold → b'.state ≡ open_)
unfolding call admit record_result record_failure
failing_call b now after v s h = (ground arith, ground arith, ground arith, ground arith)

fail_calls-count :
    (b : Breaker) (ts : List (ℕ × ℕ))
    → IsConfig b.cfg
    → b.state ≢ open_
    → b.failure_count < b.cfg.failure_threshold
    → b.failure_count + length ts ≤ b.cfg.failure_threshold
    → let b' = fail_calls b ts in
      (b'.failure_count ≡ b.failure_count + length ts)
      × (b.failure_count + length ts < b.cfg.failure_threshold → b'.state ≡ b.state)
      × (b.failure_count + length ts ≡ b.cfg.failure_threshold → b'.state ≡ open_)
unfolding fail_calls
fail_calls-count b [] v s h k = (omega arith, λ _. refl, λ e. absurd (omega arith))
fail_calls-count b ((now, after) ∷ []) v s h k =
    let (c, n, below, at) = failing_call b now after v s h in
    (omega arith, λ p. below (omega arith), λ p. at (omega arith))
fail_calls-count b ((now, after) ∷ t ∷ ts) v s h k =
    let (c, n, below, at) = failing_call b now after v s h in
    let st = below (omega arith) in
    let (n', below', at') =
      fail_calls-count (call b false now after).0 (t ∷ ts) (rw c v) (rw st s) (rw c (omega arith))
        (rw c (omega arith)) in
    (omega arith, λ p. below' (rw c (omega arith)) ∙ st, λ p. at' (rw c (omega arith)))

split_state :
    {s t u : State} (m n : ℕ)
    → m ≤ n
    → (m < n → s ≡ t)
    → (m ≡ n → s ≡ u)
    → s ≡ (if ltb m n then t else u)
split_state m n h below at = elim (Bool-cases (ltb m n)) [
  | inl l ↦ below (ltb→lt m n l) ∙ ground (arith, l)
  | inr l ↦ at (ground (arith, l, h)) ∙ ground (arith, l)
]

-- From a breaker that is closed or half open, has counted no failure and has thresholds that are
-- positive uint32_t, consecutive failing calls, as many as the failure threshold at most, are
-- counted one by one; the state stays what it was until their number reaches the threshold, and
-- with that call it is open. A half-open breaker needs as many.
pub fails_open :
    (b : Breaker) (ts : List (ℕ × ℕ))
    → IsConfig b.cfg
    → b.state ≢ open_
    → b.failure_count ≡ 0
    → length ts ≤ b.cfg.failure_threshold
    → let b' = fail_calls b ts in
      (b'.failure_count ≡ length ts)
      × (b'.state ≡ (if ltb (length ts) b.cfg.failure_threshold then b.state else open_))
fails_open b ts v s z h =
    let (n, below, at) = fail_calls-count b ts v s (omega arith) (omega arith) in
    (
      omega arith,
      split_state (length ts) b.cfg.failure_threshold h (λ p. below (omega arith))
          (λ p. at (omega arith)),
    )

succeeding_call :
    (b : Breaker) (now after : ℕ)
    → IsConfig b.cfg
    → b.state ≡ half_open
    → b.success_count < b.cfg.success_threshold
    → let b' = (call b true now after).0 in
      (b'.cfg ≡ b.cfg)
      × (b.success_count + 1 < b.cfg.success_threshold
          → (b'.state ≡ half_open) × (b'.success_count ≡ b.success_count + 1))
      × (b.success_count + 1 ≡ b.cfg.success_threshold
          → (b'.state ≡ closed) × (b'.failure_count ≡ 0) × (b'.success_count ≡ 0))
unfolding call admit record_result record_success
succeeding_call b now after v s h = (ground arith, ground arith, ground arith)

succeed_calls-count :
    (b : Breaker) (ts : List (ℕ × ℕ))
    → IsConfig b.cfg
    → b.state ≡ half_open
    → b.success_count < b.cfg.success_threshold
    → b.success_count + length ts ≤ b.cfg.success_threshold
    → let b' = succeed_calls b ts in
      (b.success_count + length ts < b.cfg.success_threshold → b'.state ≡ half_open)
      × (b.success_count + length ts ≡ b.cfg.success_threshold
          → (b'.state ≡ closed) × (b'.failure_count ≡ 0) × (b'.success_count ≡ 0))
unfolding succeed_calls
succeed_calls-count b [] v s h k = (λ _. s, λ e. absurd (omega arith))
succeed_calls-count b ((now, after) ∷ []) v s h k =
    let (c, below, at) = succeeding_call b now after v s h in
    (λ p. (below (omega arith)).0, λ p. at (omega arith))
succeed_calls-count b ((now, after) ∷ t ∷ ts) v s h k =
    let (c, below, at) = succeeding_call b now after v s h in
    let (st, n) = below (omega arith) in
    let (below', at') =
      succeed_calls-count (call b true now after).0 (t ∷ ts) (rw c v) st (rw c (omega arith))
        (rw c (omega arith)) in
    (λ p. below' (rw c (omega arith)), λ p. at' (rw c (omega arith)))

abbrev probing : Breaker → Breaker
probing b = record b { state = half_open; failure_count = 0 }

call_elapsed :
    (b : Breaker) (now after : ℕ)
    → b.state ≡ open_
    → b.cfg.open_duration ≤ now - b.opened_at
    → (call b true now after).0 ≡ (call (probing b) true now after).0
unfolding call admit
call_elapsed b now after e h = ground arith

succeed_calls_elapsed :
    (b : Breaker) (now after : ℕ) (ts : List (ℕ × ℕ))
    → b.state ≡ open_
    → b.cfg.open_duration ≤ now - b.opened_at
    → succeed_calls b ((now, after) ∷ ts) ≡ succeed_calls (probing b) ((now, after) ∷ ts)
unfolding succeed_calls
succeed_calls_elapsed b now after ts e h =
    ap (λ (t : Breaker). succeed_calls t ts) (call_elapsed b now after e h)

succeeds_elapsed :
    (b : Breaker) (now after : ℕ) (ts : List (ℕ × ℕ))
    → Inv b
    → b.state ≡ open_
    → b.cfg.open_duration ≤ now - b.opened_at
    → length ((now, after) ∷ ts) ≤ b.cfg.success_threshold
    → let b' = succeed_calls b ((now, after) ∷ ts) in
      (length ((now, after) ∷ ts) < b.cfg.success_threshold → b'.state ≡ half_open)
      × (length ((now, after) ∷ ts) ≡ b.cfg.success_threshold
          → (b'.state ≡ closed) × (b'.failure_count ≡ 0) × (b'.success_count ≡ 0))
succeeds_elapsed b now after ts v e h k =
    subst
      (λ b'.
        (length ((now, after) ∷ ts) < b.cfg.success_threshold → b'.state ≡ half_open)
        × (length ((now, after) ∷ ts) ≡ b.cfg.success_threshold
            → (b'.state ≡ closed) × (b'.failure_count ≡ 0) × (b'.success_count ≡ 0)))
      (sym (succeed_calls_elapsed b now after ts e h))
      (let (below, at) =
          succeed_calls-count (probing b) ((now, after) ∷ ts) v.config refl v.successes_below
            (omega (arith, v.successes_half_open (λ p. cc))) in
        (
          λ p. below (omega (arith, v.successes_half_open (λ q. cc))),
          λ p. at (omega (arith, v.successes_half_open (λ q. cc))),
        ))

-- From an open breaker whose open duration has elapsed, as many consecutive successful calls as
-- the success threshold close it, with both counts at zero.
pub succeeds_closed :
    (b : Breaker) (now after : ℕ) (ts : List (ℕ × ℕ))
    → Inv b
    → b.state ≡ open_
    → b.cfg.open_duration ≤ now - b.opened_at
    → length ((now, after) ∷ ts) ≡ b.cfg.success_threshold
    → let b' = succeed_calls b ((now, after) ∷ ts) in
      (b'.state ≡ closed) × (b'.failure_count ≡ 0) × (b'.success_count ≡ 0)
succeeds_closed b now after ts v e h k =
    (succeeds_elapsed b now after ts v e h (omega (arith, k))).1 k
