-- ===== src/Userlib/Moves/Once.antt =====
-- What the moves of userlib's handles close, and what they leave open.
use deepspan.Common.{
  ℕ, zero, suc, ◌+◌, ◌≡◌, ◌≢◌, refl, ap, ◌∙◌, Bool, true, false, ◌==◌, if◌then◌else◌, Option, none,
  some, List, [], ◌∷◌, ◌++◌, set, arith,
}
use mathlib.Core.Option.{some-injective}
use deepspan.Userlib.Device.{Os, DeepspanDevice, AsyncClient, destroy_device, destroy_client}
use deepspan.Userlib.Handles.Leaks.{
  held, count, Balance, destroy_device-Balance, destroy_client-Balance,
}
use deepspan.Userlib.Moves.{
  Objects, moved_device, moved_client, object_at, construct_device, move_device, replace_device,
  assign_device, construct_client, move_client, replace_client, assign_client, Move,
  constructs_device, constructs_client, assigns_device, assigns_client, move, run, destroy_devices,
  destroy_clients, destroy_objects,
}

module _ {A : Type 0} (handle : A → Option ℕ) (k : ℕ) where
  -- How many of the objects hold `k`.
  unfoldable pub total : List A → ℕ
  total [] = 0
  total (x ∷ xs) = held k (handle x) + total xs

  total-append : (xs : List A) (x : A) → total (xs ++ x ∷ []) ≡ total xs + held k (handle x)
  unfolding total
  total-append [] x = omega arith
  total-append (y ∷ xs) x = omega (arith, total-append xs x)

  total-set :
      (xs : List A) (i : ℕ) (x y : A)
      → object_at i xs ≡ some x
      → total (set xs i y) + held k (handle x) ≡ total xs + held k (handle y)
  unfolding total object_at
  total-set [] i x y e = ground arith
  total-set (z ∷ xs) zero x y e =
      omega (arith, ap (λ (w : A). held k (handle w)) (some-injective z x e))
  total-set (z ∷ xs) (suc i) x y e = omega (arith, total-set xs i x y e)

module _ {A : Type 0} where
  object_at-set_other :
      (xs : List A) (i j : ℕ) (y : A) → i ≢ j → object_at j (set xs i y) ≡ object_at j xs
  unfolding object_at
  object_at-set_other [] i j y h = refl
  object_at-set_other (x ∷ xs) zero zero y h = absurd (h refl)
  object_at-set_other (x ∷ xs) zero (suc j) y h = refl
  object_at-set_other (x ∷ xs) (suc i) zero y h = refl
  object_at-set_other (x ∷ xs) (suc i) (suc j) y h =
      object_at-set_other xs i j y (λ e. h (omega (arith, e)))

-- `xs[i] = move(xs[j])`, where `m` is what the move leaves behind.
total-replace :
    {A : Type 0} (handle : A → Option ℕ) (k : ℕ) (xs : List A) (i j : ℕ) (x y m : A)
    → i ≢ j
    → object_at i xs ≡ some x
    → object_at j xs ≡ some y
    → total handle k (set (set xs i y) j m) + held k (handle x)
      ≡ total handle k xs + held k (handle m)
total-replace handle k xs i j x y m h e f = omega (
  arith,
  total-set handle k xs i x y e,
  total-set handle k (set xs i y) j y m (object_at-set_other xs i j y h ∙ f),
)

abbrev fd_of : DeepspanDevice → Option ℕ
fd_of d = d.fd

abbrev ring_of : AsyncClient → Option ℕ
ring_of c = c.ring

-- Besides what was open before, what the objects hold is open, each descriptor and ring as often as
-- objects hold it.
abbrev pub IsHeld : Os → Objects → Type 0
IsHeld before s =
    Balance before s.os (λ k. total fd_of k s.devices) (λ k. total ring_of k s.clients)

construct_device-IsHeld :
    (before : Os) (s : Objects) (other : ℕ) (o : Option DeepspanDevice)
    → object_at other s.devices ≡ o
    → IsHeld before s
    → IsHeld before (construct_device other o s)
unfolding construct_device
construct_device-IsHeld before s other none e h = h
construct_device-IsHeld before s other (some d) e h = record {
  descriptors = λ k. omega (
    arith,
    h.descriptors k,
    total-append fd_of k (set s.devices other moved_device) d,
    total-set fd_of k s.devices other d moved_device e,
  );
  queues = h.queues;
}

replace_device-IsHeld :
    (before : Os) (s : Objects) (this other : ℕ) (o p : Option DeepspanDevice)
    → this ≢ other
    → object_at this s.devices ≡ o
    → object_at other s.devices ≡ p
    → IsHeld before s
    → IsHeld before (replace_device this other o p s)
unfolding replace_device destroy_device
replace_device-IsHeld before s this other (some d) (some d') n e f h =
    let after : List DeepspanDevice = set (set s.devices this d') other moved_device in
    destroy_device-Balance before s.os d (λ k. total fd_of k after) (λ k. total ring_of k s.clients)
      (record {
        descriptors = λ k. omega (
          arith,
          h.descriptors k,
          total-replace fd_of k s.devices this other d d' moved_device n e f,
        );
        queues = h.queues;
      })
replace_device-IsHeld before s this other (some d) none n e f h = h
replace_device-IsHeld before s this other none p n e f h = h

construct_client-IsHeld :
    (before : Os) (s : Objects) (other : ℕ) (o : Option AsyncClient)
    → object_at other s.clients ≡ o
    → IsHeld before s
    → IsHeld before (construct_client other o s)
unfolding construct_client
construct_client-IsHeld before s other none e h = h
construct_client-IsHeld before s other (some c) e h = record {
  descriptors = h.descriptors;
  queues = λ k. omega (
    arith,
    h.queues k,
    total-append ring_of k (set s.clients other moved_client) c,
    total-set ring_of k s.clients other c moved_client e,
  );
}

replace_client-IsHeld :
    (before : Os) (s : Objects) (this other : ℕ) (o p : Option AsyncClient)
    → this ≢ other
    → object_at this s.clients ≡ o
    → object_at other s.clients ≡ p
    → IsHeld before s
    → IsHeld before (replace_client this other o p s)
unfolding replace_client destroy_client
replace_client-IsHeld before s this other (some c) (some c') n e f h =
    let after : List AsyncClient = set (set s.clients this c') other moved_client in
    destroy_client-Balance before s.os c (λ k. total fd_of k s.devices) (λ k. total ring_of k after)
      (record {
        descriptors = h.descriptors;
        queues = λ k. omega (
          arith,
          h.queues k,
          total-replace ring_of k s.clients this other c c' moved_client n e f,
        );
      })
replace_client-IsHeld before s this other (some c) none n e f h = h
replace_client-IsHeld before s this other none p n e f h = h

guarded-IsHeld :
    (before : Os) (same : Bool) (x y : Objects)
    → IsHeld before x
    → (same ≡ false → IsHeld before y)
    → IsHeld before (if same then x else y)
guarded-IsHeld before true x y h k = h
guarded-IsHeld before false x y h k = k refl

assign_device-IsHeld :
    (before : Os) (s : Objects) (this other : ℕ)
    → IsHeld before s
    → IsHeld before (assign_device this other s)
unfolding assign_device
assign_device-IsHeld before s this other h = guarded-IsHeld before (this == other) s _ h (λ e.
    replace_device-IsHeld before s this other (object_at this s.devices) (object_at other s.devices)
      (λ p. ground arith) refl refl h)

assign_client-IsHeld :
    (before : Os) (s : Objects) (this other : ℕ)
    → IsHeld before s
    → IsHeld before (assign_client this other s)
unfolding assign_client
assign_client-IsHeld before s this other h = guarded-IsHeld before (this == other) s _ h (λ e.
    replace_client-IsHeld before s this other (object_at this s.clients) (object_at other s.clients)
      (λ p. ground arith) refl refl h)

move-IsHeld : (before : Os) (s : Objects) (m : Move) → IsHeld before s → IsHeld before (move s m)
unfolding move move_device move_client
move-IsHeld before s (constructs_device other) h =
    construct_device-IsHeld before s other (object_at other s.devices) refl h
move-IsHeld before s (constructs_client other) h =
    construct_client-IsHeld before s other (object_at other s.clients) refl h
move-IsHeld before s (assigns_device this other) h = assign_device-IsHeld before s this other h
move-IsHeld before s (assigns_client this other) h = assign_client-IsHeld before s this other h

run-IsHeld :
    (before : Os) (s : Objects) (ms : List Move) → IsHeld before s → IsHeld before (run s ms)
unfolding run
run-IsHeld before s [] h = h
run-IsHeld before s (m ∷ ms) h = run-IsHeld before (move s m) ms (move-IsHeld before s m h)

destroy_clients-Balance :
    (before os : Os) (cs : List AsyncClient) (fs : ℕ → ℕ)
    → Balance before os fs (λ k. total ring_of k cs)
    → Balance before (destroy_clients os cs) fs (λ k. 0)
unfolding destroy_clients total
destroy_clients-Balance before os [] fs b = b
destroy_clients-Balance before os (c ∷ cs) fs b =
    destroy_clients-Balance before (destroy_client os c) cs fs
      (destroy_client-Balance before os c fs (λ k. total ring_of k cs) b)

destroy_devices-Balance :
    (before os : Os) (ds : List DeepspanDevice)
    → Balance before os (λ k. total fd_of k ds) (λ k. 0)
    → Balance before (destroy_devices os ds) (λ k. 0) (λ k. 0)
unfolding destroy_devices total
destroy_devices-Balance before os [] b = b
destroy_devices-Balance before os (d ∷ ds) b =
    destroy_devices-Balance before (destroy_device os d) ds
      (destroy_device-Balance before os d (λ k. total fd_of k ds) (λ k. 0) b)

-- However devices and clients are move-constructed and move-assigned, an object to itself included:
-- if at first what the objects hold is open, each descriptor and ring as often as objects hold it,
-- so it is afterwards, and when all objects are then destroyed just what was open before any of them
-- is still open, as often as then; and assigning an object to itself changes nothing.
pub moves_keep :
    (before : Os) (s : Objects) (ms : List Move)
    → IsHeld before s
    → IsHeld before (run s ms)
      × ((k : ℕ)
          → (count k (destroy_objects (run s ms)).fds ≡ count k before.fds)
            × (count k (destroy_objects (run s ms)).rings ≡ count k before.rings))
      × ((i : ℕ)
          → (assign_device i i (run s ms) ≡ run s ms) × (assign_client i i (run s ms) ≡ run s ms))
unfolding destroy_objects assign_device assign_client
moves_keep before s ms h =
    let q : Objects = run s ms in
    let held : IsHeld before q = run-IsHeld before s ms h in
    let none_left : Balance before (destroy_objects q) (λ k. 0) (λ k. 0) =
      destroy_devices-Balance before (destroy_clients q.os q.clients) q.devices
        (destroy_clients-Balance before q.os q.clients (λ k. total fd_of k q.devices) held) in
    (
      held,
      λ k. (omega (arith, none_left.descriptors k), omega (arith, none_left.queues k)),
      λ i. (ground arith, ground arith),
    )
