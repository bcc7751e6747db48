-- ===== src/Kernel/Tally.antt =====
-- Counting the entries of the driver's lists by a key.
use deepspan.Common.{
  ℕ, zero, suc, ◌+◌, ◌≤◌, ◌<◌, ◌≡◌, inl, inr, refl, ap, subst, true, ◌==◌, if◌then◌else◌, some,
  List, [], ◌∷◌, ◌++◌, length, arith, Option-cases,
}
use mathlib.Core.Option.{some-injective}
use deepspan.Kernel.Request.{Request, xa_erase}
use deepspan.Kernel.Vqueue.{pick}
use deepspan.Kernel.Unwind.{IsFresh}

-- How many entries of a list have the key `k`.
unfoldable pub tally : {A : Type 0} → (A → ℕ) → ℕ → List A → ℕ
tally f k [] = 0
tally f k (x ∷ xs) = (if f x == k then 1 else 0) + tally f k xs

pub tally-append :
    {A : Type 0}
    → (f : A → ℕ) (k : ℕ) (xs ys : List A) → tally f k (xs ++ ys) ≡ tally f k xs + tally f k ys
unfolding tally
tally-append f k [] ys = omega arith
tally-append f k (x ∷ xs) ys = omega (arith, tally-append f k xs ys)

abbrev pub same : ℕ → ℕ
same id = id

pub tally-xa_erase :
    (id k : ℕ) (xs : List ℕ)
    → tally same k (xa_erase id xs) ≡ (if id == k then 0 else tally same k xs)
unfolding tally xa_erase
tally-xa_erase id k [] = ground arith
tally-xa_erase id k (x ∷ xs) = ground (arith, tally-xa_erase id k xs)

pub tally-IsFresh : (id : ℕ) (xs : List ℕ) → IsFresh id xs → tally same id xs ≡ 0
unfolding tally IsFresh
tally-IsFresh id [] h = refl
tally-IsFresh id (x ∷ xs) h = rw (h.0) (ap (0 +◌) (tally-IsFresh id xs h.1))

pub length-xa_erase :
    (id : ℕ) (xs : List ℕ) → length (xa_erase id xs) + tally same id xs ≡ length xs
unfolding tally xa_erase
length-xa_erase id [] = omega arith
length-xa_erase id (x ∷ xs) = ground (arith, length-xa_erase id xs)

-- Keys between 1 and `n`, each at most once, are at most `n`.
pub length-bound :
    (n : ℕ) (xs : List ℕ)
    → ((k : ℕ) → tally same k xs ≤ 1)
    → ((k : ℕ) → n < k → tally same k xs ≡ 0)
    → tally same 0 xs ≡ 0
    → length xs ≤ n
unfolding tally
length-bound zero [] once above none_at = omega arith
length-bound zero (zero ∷ xs) once above none_at = absurd (omega (arith, none_at))
length-bound zero (suc x ∷ xs) once above none_at =
    let itself : (suc x == suc x) ≡ true = ground arith in
    absurd (ground (arith, itself, above (suc x) (omega arith)))
length-bound (suc n) xs once above none_at =
    let top : ℕ = suc n in
    let fewer : length (xa_erase top xs) ≤ n =
      length-bound n (xa_erase top xs) (λ k. ground (arith, tally-xa_erase top k xs, once k))
        (λ k l. ground (arith, tally-xa_erase top k xs, above k))
        (ground (arith, tally-xa_erase top 0 xs, none_at)) in
    omega (arith, fewer, length-xa_erase top xs, once top)

-- A request that the firmware gives back leaves the one list and enters the other.
unfoldable pub Picked : List Request → Request × List Request → Type 0
Picked rs (r, rest) =
    (length rs ≡ suc (length rest))
    × ((f : Request → ℕ) (k : ℕ) → tally f k rs ≡ tally f k (r ∷ []) + tally f k rest)

pub pick_lem :
    (rs : List Request) (i : ℕ) (found : Request × List Request)
    → pick rs i ≡ some found
    → Picked rs found
unfolding pick Picked tally
pick_lem [] i found e = absurd cc
pick_lem (r ∷ rs) zero found e =
    subst (Picked (r ∷ rs)) (some-injective (r, rs) found e) (refl, λ f k. omega arith)
pick_lem (r ∷ rs) (suc i) found e = elim (Option-cases (pick rs i)) [
  | inl h ↦ absurd (let e' = rw h at e in cc)
  | inr ((s, rest), h) ↦
      let (l, t) = pick_lem rs i (s, rest) h in
      subst (Picked (r ∷ rs)) (some-injective (s, r ∷ rest) found (rw h at e))
        (ap suc l, λ f k. omega (arith, t f k))
]
