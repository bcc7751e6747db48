-- ===== src/DevicePool/Counting.antt =====
-- in_use() against the guards that the callers hold.
use deepspan.Common.{
  ℕ, zero, suc, ◌+◌, ◌<◌, ◌≡◌, ◌↔◌, refl, sym, ap, subst, ◌∙◌, Bool, true, false, ◌==◌,
  if◌then◌else◌, Option, none, some, List, [], ◌∷◌, ◌++◌, set, get_or, replicate, length, arith,
}
use deepspan.DevicePool.{
  DevicePool, find_idle, taken, grant, acquire, release, destroy, move_construct, move_assign,
  reassigned, count_used, size,
}
use deepspan.DevicePool.Ownership.{
  holds, holders-set-none, get_or-set_other, find_idle-idle, find_idle-none, find_idle-full,
  grant-some, Reachable-Inv, Inv, Reachable, opened, acquired, destroyed, moved, assigned,
}

abbrev valid : Option ℕ → ℕ
valid none = 0
valid (some i) = 1

-- How many guards hold an entry.
pub count_valid : List (Option ℕ) → ℕ
count_valid [] = 0
count_valid (g ∷ gs) = valid g + count_valid gs

count_valid-append :
    (gs : List (Option ℕ)) (g : Option ℕ) → count_valid (gs ++ g ∷ []) ≡ count_valid gs + valid g
unfolding count_valid
count_valid-append [] g = omega arith
count_valid-append (h ∷ gs) g = omega (arith, count_valid-append gs g)

count_valid-set-none :
    (gs : List (Option ℕ)) (i : ℕ)
    → count_valid (set gs i none) + valid (get_or gs i none) ≡ count_valid gs
unfolding count_valid
count_valid-set-none [] i = omega arith
count_valid-set-none (g ∷ gs) zero = omega arith
count_valid-set-none (g ∷ gs) (suc i) = omega (arith, count_valid-set-none gs i)

count_valid-set :
    (gs : List (Option ℕ)) (i : ℕ) (g : Option ℕ)
    → i < length gs
    → count_valid (set gs i g) + valid (get_or gs i none) ≡ count_valid gs + valid g
unfolding count_valid
count_valid-set [] i g h = absurd (omega arith)
count_valid-set (x ∷ gs) zero g h = omega arith
count_valid-set (x ∷ gs) (suc i) g h = omega (arith, count_valid-set gs i g (omega arith))

count_used-set-true :
    (flags : List Bool) (i : ℕ)
    → i < length flags
    → get_or flags i false ≡ false
    → count_used (set flags i true) ≡ count_used flags + 1
unfolding count_used
count_used-set-true [] i l f = absurd (omega arith)
count_used-set-true (true ∷ flags) zero l f = absurd cc
count_used-set-true (false ∷ flags) zero l f = omega arith
count_used-set-true (x ∷ flags) (suc i) l f =
    omega (arith, count_used-set-true flags i (omega arith) f)

count_used-set-false :
    (flags : List Bool) (i : ℕ)
    → get_or flags i false ≡ true
    → count_used (set flags i false) + 1 ≡ count_used flags
unfolding count_used
count_used-set-false [] i f = absurd cc
count_used-set-false (true ∷ flags) zero f = omega arith
count_used-set-false (false ∷ flags) zero f = absurd cc
count_used-set-false (x ∷ flags) (suc i) f = omega (arith, count_used-set-false flags i f)

-- The entry that a guard holds is in use.
held_used :
    (p : DevicePool) (g : ℕ) (x : Option ℕ)
    → Inv p
    → get_or p.guards g none ≡ x
    → count_used (release p.in_use x) + valid x ≡ count_used p.in_use
unfolding release
held_used p g none v e = omega arith
held_used p g (some i) v e =
    let s = holders-set-none i p.guards g in
    let a = ap (holds i) e in
    let o = v.owned i in count_used-set-false p.in_use i (ground (arith, s, a, o))

pub Counted : DevicePool → Type 0
Counted p = count_used p.in_use ≡ count_valid p.guards

taken-Counted :
    (p : DevicePool) (i : ℕ)
    → Counted p
    → i < length p.in_use
    → get_or p.in_use i false ≡ false
    → Counted (taken p i)
unfolding taken Counted
taken-Counted p i c l f =
    count_used-set-true p.in_use i l f ∙ omega (arith, c, count_valid-append p.guards (some i))

acquire-Counted : (p p' : DevicePool) → Counted p → acquire p ≡ some p' → Counted p'
unfolding acquire
acquire-Counted p p' v e =
    let (i, found, out) = grant-some p p' (find_idle p.in_use 0) e in
    let (n, a, b, c) = find_idle-idle p.in_use 0 i found in
    let same : i ≡ n = omega arith in
    subst Counted out
      (taken-Counted p i v (omega arith) (ap (λ (m : ℕ). get_or p.in_use m false) same ∙ c))

destroy-Counted : (p : DevicePool) (g : ℕ) → Inv p → Counted p → Counted (destroy p g)
unfolding destroy Counted
destroy-Counted p g v c =
    let r = held_used p g (get_or p.guards g none) v refl in
    let s = count_valid-set-none p.guards g in omega (arith, c, r, s)

move_construct-Counted : (p : DevicePool) (g : ℕ) → Counted p → Counted (move_construct p g)
unfolding move_construct Counted
move_construct-Counted p g c =
    c
    ∙ sym (
        count_valid-append (set p.guards g none) (get_or p.guards g none)
        ∙ count_valid-set-none p.guards g)

reassigned-Counted :
    (p : DevicePool) (g h : ℕ) (b : Bool)
    → Inv p
    → Counted p
    → g < length p.guards
    → (g == h) ≡ b
    → Counted (if b then p else reassigned p g h)
unfolding reassigned Counted
reassigned-Counted p g h true v c l e = c
reassigned-Counted p g h false v c l e =
    let r = held_used p g (get_or p.guards g none) v refl in
    let y = get_or p.guards h none in
    let a = count_valid-set p.guards g y l in
    let b = count_valid-set-none (set p.guards g y) h in
    let o = ap valid (get_or-set_other p.guards g h y (λ q. ground (arith, e, q))) in
    omega (arith, c, r, a, b, o)

move_assign-Counted :
    (p : DevicePool) (g h : ℕ)
    → Inv p
    → Counted p
    → g < length p.guards
    → Counted (move_assign p g h)
unfolding move_assign
move_assign-Counted p g h v c l = reassigned-Counted p g h (g == h) v c l refl

opened-Counted : (n : ℕ) → count_used (replicate n false) ≡ 0
unfolding count_used
opened-Counted zero = refl
opened-Counted (suc n) = omega (arith, opened-Counted n)

reachable-Counted : {p : DevicePool} → Reachable p → Counted p
unfolding Counted count_valid
reachable-Counted (opened n) = opened-Counted n
reachable-Counted (acquired {p} {p'} r e) = acquire-Counted p p' (reachable-Counted r) e
reachable-Counted (destroyed {p} g r) = destroy-Counted p g (Reachable-Inv r) (reachable-Counted r)
reachable-Counted (moved {p} g r) = move_construct-Counted p g (reachable-Counted r)
reachable-Counted (assigned {p} g h r l) =
    move_assign-Counted p g h (Reachable-Inv r) (reachable-Counted r) l

grant-none : (p : DevicePool) (o : Option ℕ) → grant p o ≡ none → o ≡ none
unfolding grant
grant-none p none e = refl
grant-none p (some i) e = absurd cc

acquire-none : (p : DevicePool) → (acquire p ≡ none) ↔ (count_used p.in_use ≡ size p)
unfolding acquire grant
acquire-none p = (
  λ e. find_idle-none p.in_use 0 (grant-none p (find_idle p.in_use 0) e),
  λ e. ap (grant p) (find_idle-full p.in_use 0 e),
)

-- Of every pool that the callers can reach: in_use() counts the guards that hold an entry, and
-- acquire() fails exactly when as many guards hold an entry as the pool has devices.
pub exhausted :
    {p : DevicePool}
    → Reachable p
    → (count_used p.in_use ≡ count_valid p.guards)
      × ((acquire p ≡ none) ↔ (count_valid p.guards ≡ size p))
unfolding Counted
exhausted {p} r =
    let c = reachable-Counted r in
    (c, (λ e. sym c ∙ (acquire-none p).0 e, λ e. (acquire-none p).1 (c ∙ e)))
