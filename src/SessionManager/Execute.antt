-- ===== src/SessionManager/Execute.antt =====
-- What `execute` returns, and what it leaves of the pool and the breaker.
use deepspan.Common.{
  ℕ, zero, suc, ◌≡◌, ◌≢◌, ◌↔◌, refl, sym, ap, ◌∙◌, Bool, true, false, if◌then◌else◌, Option, none,
  some, List, [], ◌∷◌, ◌++◌, set, get_or, length, ltb, ◌&&◌, Bool-cases, inl, inr, arith,
}
use deepspan.CircuitBreaker.{Breaker, State, open_, admit, call}
use deepspan.CircuitBreaker.Invariant.{IsConfig}
use deepspan.CircuitBreaker.Recovery.{fail_calls, fails_open}
use deepspan.DevicePool.{
  DevicePool, acquire, grant, taken, release, find_idle, destroy, count_used, size,
}
use deepspan.DevicePool.Ownership.{find_idle-idle, find_idle-full}
use deepspan.SessionManager.{submit_failed, SessionManager, granted, run_on, body, execute}

set-restore :
    (flags : List Bool) (i : ℕ)
    → get_or flags i false ≡ false
    → set (set flags i true) i false ≡ flags
set-restore [] i e = refl
set-restore (x ∷ flags) zero e = ap (λ (b : Bool). b ∷ flags) (sym e)
set-restore (x ∷ flags) (suc i) e = ap (◌∷◌ x) (set-restore flags i e)

get_or-last : (gs : List (Option ℕ)) (x : Option ℕ) → get_or (gs ++ x ∷ []) (length gs) none ≡ x
get_or-last [] x = refl
get_or-last (g ∷ gs) x = get_or-last gs x

find_idle-flag :
    (flags : List Bool) (i : ℕ) → find_idle flags 0 ≡ some i → get_or flags i false ≡ false
find_idle-flag flags i e =
    let (n, a, b, c) = find_idle-idle flags 0 i e in
    let same : i ≡ n = omega arith in ap (λ (m : ℕ). get_or flags m false) same ∙ c

-- The lambda with the search's result in place of the search.
body_found : DevicePool → (ℕ → Bool) → Option ℕ → DevicePool × Bool
body_found p f o = elim (grant p o) [
  | none ↦ (p, false)
  | some p' ↦ (destroy p' (length p.guards), run_on f (granted p p'))
]

body_found-in_use :
    (p : DevicePool) (f : ℕ → Bool) (o : Option ℕ)
    → find_idle p.in_use 0 ≡ o
    → ((body_found p f o).0.in_use ≡ p.in_use) × ((body_found p f o).1 ≡ run_on f o)
unfolding body_found grant taken destroy release granted run_on
body_found-in_use p f none e = (refl, refl)
body_found-in_use p f (some i) e = (
  ap (release (set p.in_use i true)) (get_or-last p.guards (some i))
      ∙ set-restore p.in_use i (find_idle-flag p.in_use i e),
  ap (run_on f) (get_or-last p.guards (some i)),
)

body-in_use :
    (p : DevicePool) (f : ℕ → Bool)
    → ((body p f).0.in_use ≡ p.in_use) × ((body p f).1 ≡ run_on f (find_idle p.in_use 0))
unfolding body acquire body_found
body-in_use p f = body_found-in_use p f (find_idle p.in_use 0) refl

call-admit :
    (b : Breaker) (ok : Bool) (now after : ℕ)
    → ((call b ok now after).1 ≡ ((admit b now).1 && ok))
      × ((call b ok now after).2 ≡ (admit b now).1)
unfolding call
call-admit b ok now after = elim (Bool-cases (admit b now).1) [
  | inl e ↦ (ground (arith, e), ground (arith, e))
  | inr e ↦ (ground (arith, e), ground (arith, e))
]

none_iff :
    (returned a b : Bool)
    → returned ≡ (a && b)
    → ((if returned then none else some submit_failed) ≡ none) ↔ ((a ≡ true) × (b ≡ true))
none_iff returned true true e = ground (arith, e)
none_iff returned true false e = ground (arith, e)
none_iff returned false b e = ground (arith, e)

kept :
    (ran : Bool) (p q : DevicePool) → p.in_use ≡ q.in_use → (if ran then p else q).in_use ≡ q.in_use
kept true p q e = e
kept false p q e = refl

-- After `execute` the same devices are in use as before, whether the call was refused, no device
-- was idle, or the function failed; and it succeeds exactly when the breaker admits the call,
-- some device is idle, and the function returns true for the first one that is.
pub execute_returns :
    (m : SessionManager) (f : ℕ → Bool) (now after : ℕ)
    → let (m', result) = execute m f now after in
      (m'.pool.in_use ≡ m.pool.in_use)
      × ((result ≡ none)
          ↔ (((admit m.breaker now).1 ≡ true) × (run_on f (find_idle m.pool.in_use 0) ≡ true)))
unfolding execute
execute_returns m f now after =
    let (a, b) = body-in_use m.pool f in
    let ok = (body m.pool f).1 in
    let (c, d) = call-admit m.breaker ok now after in
    (
      kept (call m.breaker ok now after).2 (body m.pool f).0 m.pool a,
      none_iff (call m.breaker ok now after).1 (admit m.breaker now).1
          (run_on f (find_idle m.pool.in_use 0))
          (c ∙ ap (λ (x : Bool). (admit m.breaker now).1 && x) b),
    )

-- The manager's calls one after the other, each with its function and its two times.
pub executes : SessionManager → List ((ℕ → Bool) × ℕ × ℕ) → SessionManager
executes m [] = m
executes m ((f, now, after) ∷ cs) = executes (execute m f now after).0 cs

pub times : List ((ℕ → Bool) × ℕ × ℕ) → List (ℕ × ℕ)
times [] = []
times ((f, now, after) ∷ cs) = (now, after) ∷ times cs

execute_exhausted :
    (m : SessionManager) (f : ℕ → Bool) (now after : ℕ)
    → count_used m.pool.in_use ≡ size m.pool
    → (execute m f now after).0.breaker ≡ (call m.breaker false now after).0
unfolding execute run_on
execute_exhausted m f now after full =
    let (a, b) = body-in_use m.pool f in
    let none_idle = find_idle-full m.pool.in_use 0 full in
    ap (λ (ok : Bool). (call m.breaker ok now after).0) (b ∙ ap (run_on f) none_idle)

exhausted_executes :
    (m : SessionManager) (cs : List ((ℕ → Bool) × ℕ × ℕ))
    → count_used m.pool.in_use ≡ size m.pool
    → (executes m cs).breaker ≡ fail_calls m.breaker (times cs)
unfolding executes times fail_calls
exhausted_executes m [] full = refl
exhausted_executes m ((f, now, after) ∷ cs) full =
    let kept_use = (execute_returns m f now after).0 in
    exhausted_executes (execute m f now after).0 cs
      (ap count_used kept_use ∙ full ∙ sym (ap length kept_use))
    ∙ ap (λ (b : Breaker). fail_calls b (times cs)) (execute_exhausted m f now after full)

length-times : (cs : List ((ℕ → Bool) × ℕ × ℕ)) → length (times cs) ≡ length cs
unfolding times
length-times [] = refl
length-times ((f, now, after) ∷ cs) = ap suc (length-times cs)

not_below : (s t : State) (m n : ℕ) → m ≡ n → (if ltb m n then s else t) ≡ t
not_below s t m n e = ground (arith, e)

-- Calls that find every device in use count as failures of the devices: from a breaker that is
-- not open, has counted no failure and has thresholds that are positive uint32_t, as many of them
-- in a row as the failure threshold open it.
pub exhaustion_opens :
    (m : SessionManager) (cs : List ((ℕ → Bool) × ℕ × ℕ))
    → IsConfig m.breaker.cfg
    → m.breaker.state ≢ open_
    → m.breaker.failure_count ≡ 0
    → count_used m.pool.in_use ≡ size m.pool
    → length cs ≡ m.breaker.cfg.failure_threshold
    → (executes m cs).breaker.state ≡ open_
exhaustion_opens m cs v s z full n =
    let l = length-times cs in
    let (c, state) = fails_open m.breaker (times cs) v s z (omega arith) in
    ap (λ (b : Breaker). b.state) (exhausted_executes m cs full)
    ∙ state
    ∙ not_below m.breaker.state open_ (length (times cs)) m.breaker.cfg.failure_threshold
        (omega arith)
