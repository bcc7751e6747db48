-- ===== src/DevicePool/Ownership.antt =====
-- Which guard holds which entry.
use deepspan.Common.{
  ℕ, zero, suc, ◌+◌, ◌<◌, ◌≤◌, ◌≡◌, ◌≢◌, refl, sym, ap, subst, ◌∙◌, Bool, true, false,
  if◌then◌else◌, ◌==◌, Option, none, some, List, [], ◌∷◌, ◌++◌, set, get_or, replicate, length,
  arith,
}
use deepspan.DevicePool.{
  DevicePool, find_idle, taken, grant, acquire, release, destroy, move_construct, move_assign,
  reassigned, count_used,
}

abbrev pub holds : ℕ → Option ℕ → ℕ
holds k none = 0
holds k (some i) = if i == k then 1 else 0

-- How many guards hold entry `k`.
pub holders : ℕ → List (Option ℕ) → ℕ
holders k [] = 0
holders k (g ∷ gs) = holds k g + holders k gs

abbrev pub flag : Bool → ℕ
flag true = 1
flag false = 0

-- An entry is in use exactly when one guard holds it, and no guard holds more than there is.
pub record Inv (p : DevicePool) : Type 0 where
  pub owned : (k : ℕ) → holders k p.guards ≡ flag (get_or p.in_use k false)

holders-append :
    (k : ℕ) (gs : List (Option ℕ)) (g : Option ℕ)
    → holders k (gs ++ g ∷ []) ≡ holders k gs + holds k g
unfolding holders
holders-append k [] g = omega arith
holders-append k (h ∷ gs) g = omega (arith, holders-append k gs g)

-- Out of bounds nothing is written, and `none` is read.
pub holders-set-none :
    (k : ℕ) (gs : List (Option ℕ)) (i : ℕ)
    → holders k (set gs i none) + holds k (get_or gs i none) ≡ holders k gs
unfolding holders
holders-set-none k [] i = omega arith
holders-set-none k (g ∷ gs) zero = omega arith
holders-set-none k (g ∷ gs) (suc i) = omega (arith, holders-set-none k gs i)

holders-set :
    (k : ℕ) (gs : List (Option ℕ)) (i : ℕ) (g : Option ℕ)
    → i < length gs
    → holders k (set gs i g) + holds k (get_or gs i none) ≡ holders k gs + holds k g
unfolding holders
holders-set k [] i g h = absurd (omega arith)
holders-set k (x ∷ gs) zero g h = omega arith
holders-set k (x ∷ gs) (suc i) g h = omega (arith, holders-set k gs i g (omega arith))

get_or-set-false :
    (flags : List Bool) (i k : ℕ)
    → get_or (set flags i false) k false ≡ (if i == k then false else get_or flags k false)
get_or-set-false [] i k = ground arith
get_or-set-false (x ∷ flags) zero zero = ground arith
get_or-set-false (x ∷ flags) zero (suc k) = ground arith
get_or-set-false (x ∷ flags) (suc i) zero = ground arith
get_or-set-false (x ∷ flags) (suc i) (suc k) = ground (arith, get_or-set-false flags i k)

get_or-set-true :
    (flags : List Bool) (i k : ℕ)
    → i < length flags
    → get_or (set flags i true) k false ≡ (if i == k then true else get_or flags k false)
get_or-set-true [] i k h = absurd (omega arith)
get_or-set-true (x ∷ flags) zero zero h = ground arith
get_or-set-true (x ∷ flags) zero (suc k) h = ground arith
get_or-set-true (x ∷ flags) (suc i) zero h = ground arith
get_or-set-true (x ∷ flags) (suc i) (suc k) h =
    ground (arith, get_or-set-true flags i k (omega arith))

pub get_or-set_other :
    (gs : List (Option ℕ)) (g h : ℕ) (x : Option ℕ)
    → g ≢ h
    → get_or (set gs g x) h none ≡ get_or gs h none
get_or-set_other [] g h x n = refl
get_or-set_other (y ∷ gs) zero zero x n = absurd (n refl)
get_or-set_other (y ∷ gs) zero (suc h) x n = refl
get_or-set_other (y ∷ gs) (suc g) zero x n = refl
get_or-set_other (y ∷ gs) (suc g) (suc h) x n = get_or-set_other gs g h x (λ e. n (ap suc e))

pub find_idle-idle :
    (flags : List Bool) (j i : ℕ)
    → find_idle flags j ≡ some i
    → (n : ℕ) × (i ≡ j + n) × (n < length flags) × (get_or flags n false ≡ false)
unfolding find_idle
find_idle-idle [] j i e = cc
find_idle-idle (true ∷ flags) j i e =
    let (n, a, b, c) = find_idle-idle flags (j + 1) i e in (suc n, omega arith, omega arith, c)
find_idle-idle (false ∷ flags) j i e = (0, grind arith, omega arith, refl)

pub find_idle-none :
    (flags : List Bool) (j : ℕ) → find_idle flags j ≡ none → count_used flags ≡ length flags
unfolding find_idle count_used
find_idle-none [] j e = refl
find_idle-none (true ∷ flags) j e = omega (arith, find_idle-none flags (j + 1) e)
find_idle-none (false ∷ flags) j e = absurd cc

pub count_used-le : (flags : List Bool) → count_used flags ≤ length flags
unfolding count_used
count_used-le [] = omega arith
count_used-le (true ∷ flags) = omega (arith, count_used-le flags)
count_used-le (false ∷ flags) = omega (arith, count_used-le flags)

pub find_idle-full :
    (flags : List Bool) (j : ℕ) → count_used flags ≡ length flags → find_idle flags j ≡ none
unfolding find_idle count_used
find_idle-full [] j e = refl
find_idle-full (true ∷ flags) j e = find_idle-full flags (j + 1) (omega (arith, e))
find_idle-full (false ∷ flags) j e = absurd (omega (arith, count_used-le flags))

-- What the callers can do to a pool: each call names guards that there are.
pub data Reachable : DevicePool → Type 0 where
  opened : (n : ℕ) → Reachable (record { in_use = replicate n false; guards = [] })
  acquired : {p p' : DevicePool} → Reachable p → acquire p ≡ some p' → Reachable p'
  destroyed : {p : DevicePool} (g : ℕ) → Reachable p → Reachable (destroy p g)
  moved : {p : DevicePool} (g : ℕ) → Reachable p → Reachable (move_construct p g)
  assigned :
      {p : DevicePool} (g h : ℕ) → Reachable p → g < length p.guards → Reachable (move_assign p g h)

release-Inv :
    (flags : List Bool) (x : Option ℕ) (n k : ℕ)
    → n + holds k x ≡ flag (get_or flags k false)
    → n ≡ flag (get_or (release flags x) k false)
unfolding release
release-Inv flags none n k e = omega (arith, e)
release-Inv flags (some i) n k e = let s = get_or-set-false flags i k in ground (arith, s)

taken-Inv :
    (p : DevicePool) (i : ℕ)
    → Inv p
    → i < length p.in_use
    → get_or p.in_use i false ≡ false
    → Inv (taken p i)
unfolding taken
taken-Inv p i v l f = record {
  owned = λ k.
      let a = holders-append k p.guards (some i) in
      let s = get_or-set-true p.in_use i k l in let o = v.owned k in ground (arith, a, s, o, f);
}

pub grant-some :
    (p p' : DevicePool) (o : Option ℕ)
    → grant p o ≡ some p'
    → (i : ℕ) × (o ≡ some i) × (taken p i ≡ p')
unfolding grant
grant-some p p' none e = absurd cc
grant-some p p' (some i) e = (i, refl, cc)

acquire-Inv : (p p' : DevicePool) → Inv p → acquire p ≡ some p' → Inv p'
unfolding acquire
acquire-Inv p p' v e =
    let (i, found, out) = grant-some p p' (find_idle p.in_use 0) e in
    let (n, a, b, c) = find_idle-idle p.in_use 0 i found in
    let same : i ≡ n = omega arith in
    subst Inv out (taken-Inv p i v (omega arith) (ap (λ (m : ℕ). get_or p.in_use m false) same ∙ c))

destroy-Inv : (p : DevicePool) (g : ℕ) → Inv p → Inv (destroy p g)
unfolding destroy
destroy-Inv p g v = record {
  owned = λ k.
      release-Inv p.in_use (get_or p.guards g none) (holders k (set p.guards g none)) k
        (holders-set-none k p.guards g ∙ v.owned k);
}

move_construct-Inv : (p : DevicePool) (g : ℕ) → Inv p → Inv (move_construct p g)
unfolding move_construct
move_construct-Inv p g v = record {
  owned = λ k.
      holders-append k (set p.guards g none) (get_or p.guards g none)
      ∙ holders-set-none k p.guards g
      ∙ v.owned k;
}

-- What a move assignment leaves, and what it released, add up to what there was.
holders-assign :
    (k : ℕ) (gs : List (Option ℕ)) (g h : ℕ)
    → g < length gs
    → g ≢ h
    → holders k (set (set gs g (get_or gs h none)) h none) + holds k (get_or gs g none)
      ≡ holders k gs
holders-assign k gs g h l n =
    let y = get_or gs h none in
    let a = holders-set k gs g y l in
    let b = holders-set-none k (set gs g y) h in
    let c = ap (holds k) (get_or-set_other gs g h y n) in omega (arith, a, b, c)

reassigned-Inv :
    (p : DevicePool) (g h : ℕ) (b : Bool)
    → Inv p
    → g < length p.guards
    → (g == h) ≡ b
    → Inv (if b then p else reassigned p g h)
unfolding reassigned
reassigned-Inv p g h true v l e = v
reassigned-Inv p g h false v l e = record {
  owned = λ k.
      release-Inv p.in_use (get_or p.guards g none)
        (holders k (set (set p.guards g (get_or p.guards h none)) h none)) k
        (holders-assign k p.guards g h l (λ q. ground (arith, e, q)) ∙ v.owned k);
}

move_assign-Inv : (p : DevicePool) (g h : ℕ) → Inv p → g < length p.guards → Inv (move_assign p g h)
unfolding move_assign
move_assign-Inv p g h v l = reassigned-Inv p g h (g == h) v l refl

get_or-replicate : (n k : ℕ) → get_or (replicate n false) k false ≡ false
get_or-replicate zero k = refl
get_or-replicate (suc n) zero = refl
get_or-replicate (suc n) (suc k) = get_or-replicate n k

opened-Inv : (n : ℕ) → Inv (record { in_use = replicate n false; guards = [] })
unfolding holders
opened-Inv n = record { owned = λ k. sym (ap flag (get_or-replicate n k)) }

pub Reachable-Inv : {p : DevicePool} → Reachable p → Inv p
Reachable-Inv (opened n) = opened-Inv n
Reachable-Inv (acquired {p} {p'} r e) = acquire-Inv p p' (Reachable-Inv r) e
Reachable-Inv (destroyed {p} g r) = destroy-Inv p g (Reachable-Inv r)
Reachable-Inv (moved {p} g r) = move_construct-Inv p g (Reachable-Inv r)
Reachable-Inv (assigned {p} g h r l) = move_assign-Inv p g h (Reachable-Inv r) l

-- Of every pool that the callers can reach, an entry is in use exactly when one guard holds it:
-- no two guards share a device, and none is left in use that no guard holds.
pub one_holder :
    {p : DevicePool} → Reachable p → (k : ℕ) → holders k p.guards ≡ flag (get_or p.in_use k false)
one_holder r k = (Reachable-Inv r).owned k
