-- ===== src/DevicePool.antt =====
-- runtime/appframework/src/device_pool.cpp: the pool's entries with their `in_use` flags, and the
-- guards that the callers hold. A guard is a slot: `none` is one without an entry (default
-- constructed, moved from, or gone). An entry is named by its index, since the vector is never
-- resized. Each method holds the mutex throughout, so a call is one step.
pub mod Ownership
pub mod Counting
use deepspan.Common.{
  ℕ, zero, suc, ◌+◌, Bool, true, false, if◌then◌else◌, Option, none, some, List, [], ◌∷◌, ◌++◌, set,
  get_or, length, ◌==◌,
}

pub record DevicePool : Type 0 where
  pub in_use : List Bool
  pub guards : List (Option ℕ)

-- The loop of `acquire`: the first entry that is not in use, at index `i` or later.
unfoldable pub find_idle : List Bool → ℕ → Option ℕ
find_idle [] i = none
find_idle (used ∷ rest) i = if used then find_idle rest (i + 1) else some i

unfoldable pub taken : DevicePool → ℕ → DevicePool
taken p i = record { in_use = set p.in_use i true; guards = p.guards ++ some i ∷ [] }

unfoldable pub grant : DevicePool → Option ℕ → Option DevicePool
grant p none = none
grant p (some i) = some (taken p i)

-- `none` is Error::DeviceOpenFailed; else the new guard stands last.
unfoldable pub acquire : DevicePool → Option DevicePool
acquire p = grant p (find_idle p.in_use 0)

unfoldable pub release : List Bool → Option ℕ → List Bool
release flags none = flags
release flags (some i) = set flags i false

-- ~Guard of slot `g`. (The slot is then empty, for C++ runs the destructor once.)
unfoldable pub destroy : DevicePool → ℕ → DevicePool
destroy p g = record {
  in_use = release p.in_use (get_or p.guards g none);
  guards = set p.guards g none;
}

-- Guard(Guard&&): a new guard takes the entry of slot `g`.
unfoldable pub move_construct : DevicePool → ℕ → DevicePool
move_construct p g = record p { guards = set p.guards g none ++ get_or p.guards g none ∷ [] }

unfoldable pub reassigned : DevicePool → ℕ → ℕ → DevicePool
reassigned p g h = record {
  in_use = release p.in_use (get_or p.guards g none);
  guards = set (set p.guards g (get_or p.guards h none)) h none;
}

-- operator=(Guard&&): slot `g` releases what it holds and takes the entry of slot `h`.
unfoldable pub move_assign : DevicePool → ℕ → ℕ → DevicePool
move_assign p g h = if g == h then p else reassigned p g h

-- The pool's own in_use(): how many entries are in use.
unfoldable pub count_used : List Bool → ℕ
count_used [] = 0
count_used (used ∷ rest) = (if used then 1 else 0) + count_used rest

abbrev pub size : DevicePool → ℕ
size p = length p.in_use
