-- ===== src/SessionManager/Create.antt =====
-- runtime/appframework/src/session_manager.cpp: `create`, on DevicePool::create.
use deepspan.Common.{ℕ, suc, ◌≡◌, refl, ap, ◌∙◌, Bool, List, [], ◌∷◌, map, length}
use deepspan.CircuitBreaker.{Config, new}
use deepspan.DevicePool.{DevicePool, size}
use deepspan.Userlib.AsyncClient.{Expected, unexpected, expected}
use deepspan.Userlib.Device.{Os, Answers}
use deepspan.Userlib.Handles
use deepspan.Userlib.Handles.{Entry}
use deepspan.Userlib.Handles.Leaks.{Settled, create_leaks_nothing}
use deepspan.SessionManager.{SessionManager}

-- The pool that stands on the entries: their flags, and no guard yet.
unfoldable pub pool_of : List Entry → DevicePool
pool_of entries = record { in_use = map (λ (e : Entry). e.in_use) entries; guards = [] }

unfoldable pub managed : Config → Os × Expected (List Entry) → Os × Expected SessionManager
managed cfg (os, unexpected e) = (os, unexpected e)
managed cfg (os, expected entries) =
    (os, expected (record { pool = pool_of entries; breaker = new cfg }))

-- `answers` is what the kernel answers for each path.
unfoldable pub create : Config → Os → List Answers → Os × Expected SessionManager
create cfg os answers = managed cfg (Handles.create os answers)

-- A manager for `n` paths has `n` devices and a new breaker.
unfoldable pub IsManaged : Config → ℕ → Os × Expected SessionManager → Type 0
IsManaged cfg n (os, unexpected e) = Unit
IsManaged cfg n (os, expected m) = (size m.pool ≡ n) × (m.pool.guards ≡ []) × (m.breaker ≡ new cfg)

length-map : (f : Entry → Bool) (es : List Entry) → length (map f es) ≡ length es
length-map f [] = refl
length-map f (e ∷ es) = ap suc (length-map f es)

managed-IsManaged :
    (cfg : Config) (before : Os) (n : ℕ) (made : Os × Expected (List Entry))
    → Settled before n made
    → IsManaged cfg n (managed cfg made)
unfolding Settled managed IsManaged pool_of
managed-IsManaged cfg before n (os, unexpected e) s = tt
managed-IsManaged cfg before n (os, expected es) (o, l) =
    (length-map (λ (e : Entry). e.in_use) es ∙ l, refl, refl)

-- If creation succeeds, the pool has a device for each path, no guard is given out, and the
-- breaker is a new one.
pub create-IsManaged :
    (cfg : Config) (os : Os) (answers : List Answers)
    → IsManaged cfg (length answers) (create cfg os answers)
unfolding create
create-IsManaged cfg os answers =
    managed-IsManaged cfg os (length answers) (Handles.create os answers)
      (create_leaks_nothing os answers)
