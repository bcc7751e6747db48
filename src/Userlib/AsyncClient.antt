-- ===== src/Userlib/AsyncClient.antt =====
-- runtime/userlib/src/async_client.cpp: submit, reap and submit_and_wait.
-- What io_uring and the driver do is given with each call: whether there is a free submission
-- entry, what io_uring_submit returns, and the completions that the queue holds in turn.
pub mod Reap
use deepspan.Common.{
  ℕ, zero, suc, ◌+◌, ◌<◌, ◌≡◌, refl, sym, ap, ◌∙◌, Bool, true, false, if◌then◌else◌, Option, none,
  some, List, [], ◌∷◌, ◌++◌, map, length, arith,
}

-- A C++ int: a status below zero is an error.
pub data ℤ : Type 0 where
  pos negsuc : ℕ → ℤ

pub data Error : Type 0 where
  device_open_failed iouring_setup_failed submit_failed io_error unsupported_kernel_version
        timeout :
      Error

pub data Expected (A : Type 0) : Type 0 where
  unexpected : Error → Expected A
  expected : A → Expected A

pub record DeepspanResult : Type 0 where
  pub status : ℤ
  pub result_lo : ℕ
  pub result_hi : ℕ

-- A completion: the token of its request, and `res`.
abbrev pub Cqe : Type 0
Cqe = ℕ × ℤ

-- What the callback is given for a completion.
unfoldable pub completion : ℤ → Expected DeepspanResult
completion (pos n) = expected (record { status = pos n; result_lo = 0; result_hi = 0 })
completion (negsuc n) = unexpected io_error

-- `sqe` is whether io_uring_get_sqe finds an entry; `submitted` is what io_uring_submit returns.
unfoldable pub submit : Bool → ℤ → Expected Unit
submit false submitted = unexpected submit_failed
submit true (negsuc n) = unexpected submit_failed
submit true (pos n) = expected tt

-- The callback is a function on the state it captures.
abbrev pub Callback : Type 0 → Type 0
Callback S = S → ℕ → Expected DeepspanResult → S

module _ {S : Type 0} where
  -- The loop over the completions that are there.
  unfoldable pub drain : Callback S → S → ℕ → List Cqe → S × ℕ
  drain cb s count [] = (s, count)
  drain cb s count ((token, res) ∷ queue) = drain cb (cb s token (completion res)) (count + 1) queue

  -- With `wait`, `first` is what io_uring_wait_cqe finds, none if it fails.
  unfoldable pub reap : Callback S → S → Bool → Option Cqe → List Cqe → S × Expected ℕ
  reap cb s false first queue = let (s', count) = drain cb s 0 queue in (s', expected count)
  reap cb s true none queue = (s, unexpected io_error)
  reap cb s true (some (token, res)) queue =
      let (s', count) = drain cb (cb s token (completion res)) 1 queue in (s', expected count)

unfoldable pub capture : Callback (Expected DeepspanResult)
capture captured token r = r

unfoldable pub after_reap : Expected DeepspanResult × Expected ℕ → Expected DeepspanResult
after_reap (captured, unexpected e) = unexpected e
after_reap (captured, expected count) = captured

unfoldable pub after_submit : Expected Unit → Option Cqe → List Cqe → Expected DeepspanResult
after_submit (unexpected e) first queue = unexpected e
after_submit (expected u) first queue =
    after_reap (reap capture (unexpected io_error) true first queue)

unfoldable pub submit_and_wait : Bool → ℤ → Option Cqe → List Cqe → Expected DeepspanResult
submit_and_wait sqe submitted first queue = after_submit (submit sqe submitted) first queue
