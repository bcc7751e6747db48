-- ===== src/Userlib/AsyncClient/Reap.antt =====
-- Which completions the callbacks see, and which of them submit_and_wait returns.
use deepspan.Common.{
  ℕ, ◌+◌, ◌≡◌, refl, ap, ◌∙◌, true, false, none, some, List, [], ◌∷◌, length, arith,
}
use deepspan.Userlib.AsyncClient.{
  pos, io_error, Expected, unexpected, expected, DeepspanResult, Cqe, completion, submit, Callback,
  drain, reap, capture, after_reap, after_submit, submit_and_wait,
}

module _ {S : Type 0} where
  -- A callback for each completion, the first one first.
  pub each : Callback S → S → List Cqe → S
  each cb s [] = s
  each cb s ((token, res) ∷ queue) = each cb (cb s token (completion res)) queue

  drain-each :
      (cb : Callback S) (s : S) (count : ℕ) (queue : List Cqe)
      → drain cb s count queue ≡ (each cb s queue, count + length queue)
  unfolding drain each
  drain-each cb s count [] = ap (λ (n : ℕ). (s, n)) (omega arith)
  drain-each cb s count ((token, res) ∷ queue) =
      drain-each cb (cb s token (completion res)) (count + 1) queue
      ∙ ap (λ (n : ℕ). (each cb (cb s token (completion res)) queue, n)) (omega arith)

  -- reap() calls back once for each completion that is there, in their order, and returns how
  -- many they are: those at hand when it does not wait, and else the one it waited for first. It
  -- fails only where waiting does, without a callback.
  pub reap-each :
      (cb : Callback S) (s : S) (first : Cqe) (queue : List Cqe)
      → (reap cb s false none queue ≡ (each cb s queue, expected (length queue)))
        × (reap cb s true (some first) queue
            ≡ (each cb s (first ∷ queue), expected (length (first ∷ queue))))
        × (reap cb s true none queue ≡ (s, unexpected io_error))
  unfolding reap each
  reap-each cb s (token, res) queue = (
    ap (λ (p : S × ℕ). (p.0, expected p.1)) (drain-each cb s 0 queue)
        ∙ ap (λ (n : ℕ). (each cb s queue, expected n)) (omega arith),
    ap (λ (p : S × ℕ). (p.0, expected p.1)) (drain-each cb (cb s token (completion res)) 1 queue)
        ∙ ap (λ (n : ℕ). (each cb (cb s token (completion res)) queue, expected n)) (omega arith),
    refl,
  )

-- The completion that was there last.
pub last : Cqe → List Cqe → Cqe
last c [] = c
last c (d ∷ queue) = last d queue

each-capture :
    (r : Expected DeepspanResult) (c : Cqe) (queue : List Cqe)
    → each capture r (c ∷ queue) ≡ completion (last c queue).1
unfolding each capture last
each-capture r (token, res) [] = refl
each-capture r (token, res) (d ∷ queue) = each-capture (completion res) d queue

-- When its request is submitted and some completion comes, submit_and_wait() returns the result
-- of the last completion in the queue by then, whatever its token.
pub submit_and_wait-last :
    (n : ℕ) (first : Cqe) (queue : List Cqe)
    → submit_and_wait true (pos n) (some first) queue ≡ completion (last first queue).1
unfolding submit_and_wait after_submit submit after_reap
submit_and_wait-last n first queue =
    let (a, b, c) = reap-each capture (unexpected io_error) first queue in
    ap after_reap b ∙ each-capture (unexpected io_error) first queue
