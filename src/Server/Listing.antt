-- ===== src/Server/Listing.antt =====
-- ListDevices against GetDeviceStatus and SubmitRequest.
use deepspan.Common.{
  ℕ, zero, suc, ◌+◌, ◌≡◌, refl, ap, ◌∙◌, false, Option, none, some, List, [], ◌∷◌, ◌++◌, arith,
}
use deepspan.Server.StrMap.{
  Str, less, equal, greater, cmp, find, insert, erase, IsMap, Found, IsMap-insert, IsMap-erase,
  IsMap-Found,
}
use deepspan.Server.Registry.{
  ℤ, SubmitterFactory, Registry, DeviceInfo, Outcome, threw, returned, Submitter, register_type,
  unregister_type, to_string, dev_id, max_devices, probe, devices_from, enumerate_devices, create,
  listed_state, listing, make, pos, negsuc,
}
use deepspan.Server.HwipService.{
  ok, status_of, status_at, is_empty, state_of, get_device_status, list_devices,
}
use deepspan.Server.HwipService.Parse.{has_slash, parse_device_id-join}

-- Types that can stand before the slash of a device id.
pub TypesOk : List (Str × SubmitterFactory) → Type 0
TypesOk [] = Unit
TypesOk ((ty, f) ∷ m) = (has_slash ty ≡ false) × (is_empty ty ≡ false) × TypesOk m

pub All : (DeviceInfo → Type 0) → List DeviceInfo → Type 0
All P [] = Unit
All P (i ∷ is) = P i × All P is

All-append :
    (P : DeviceInfo → Type 0) (is js : List DeviceInfo) → All P is → All P js → All P (is ++ js)
unfolding All
All-append P [] js a b = b
All-append P (i ∷ is) js (p, a) b = (p, All-append P is js a b)

-- The status of the listed device is the listed one.
abbrev pub Agrees : Registry → DeviceInfo → Type 0
Agrees r info = get_device_status r info.device_id ≡ ok info.state

pub to_string-nonempty : (n : ℕ) → is_empty (to_string n) ≡ false
unfolding to_string
to_string-nonempty n = ground arith

listed_state-status_of :
    (o : Outcome ℤ) (state : ℤ) → listed_state o ≡ some state → status_of o ≡ ok state
unfolding listed_state status_of
listed_state-status_of (threw what) state e = absurd cc
listed_state-status_of (returned (pos n)) state e = cc
listed_state-status_of (returned (negsuc n)) state e = absurd cc

probe-state_of :
    (o : Outcome (Option Submitter)) (state : ℤ)
    → probe o ≡ some state
    → state_of (some o) ≡ ok state
unfolding probe state_of
probe-state_of (threw what) state e = absurd cc
probe-state_of (returned none) state e = absurd cc
probe-state_of (returned (some sub)) state e = listed_state-status_of sub.device_state state e

status-dev_id :
    (r : Registry) (ty : Str) (f : SubmitterFactory) (idx : ℕ) (state : ℤ)
    → find ty r.factories ≡ some f
    → has_slash ty ≡ false
    → is_empty ty ≡ false
    → probe (f (dev_id ty idx)) ≡ some state
    → get_device_status r (dev_id ty idx) ≡ ok state
unfolding get_device_status create dev_id status_at make
status-dev_id r ty f idx state found h e p =
    ap (status_at r (dev_id ty idx))
      (parse_device_id-join ty (to_string idx) h e (to_string-nonempty idx))
    ∙ ap (λ (o : Option SubmitterFactory). state_of (make (dev_id ty idx) o)) found
    ∙ probe-state_of (f (dev_id ty idx)) state p

listing-Agrees :
    (r : Registry) (id : Str) (o : Option ℤ) (rest : List DeviceInfo)
    → ((state : ℤ) → o ≡ some state → get_device_status r id ≡ ok state)
    → All (Agrees r) rest
    → All (Agrees r) (listing id o rest)
unfolding All listing
listing-Agrees r id none rest s a = tt
listing-Agrees r id (some state) rest s a = (s state refl, a)

devices_from-Agrees :
    (r : Registry) (ty : Str) (f : SubmitterFactory) (n idx : ℕ)
    → find ty r.factories ≡ some f
    → has_slash ty ≡ false
    → is_empty ty ≡ false
    → All (Agrees r) (devices_from ty f n idx)
unfolding devices_from All
devices_from-Agrees r ty f zero idx found h e = tt
devices_from-Agrees r ty f (suc n) idx found h e =
    listing-Agrees r (dev_id ty idx) (probe (f (dev_id ty idx))) (devices_from ty f n (idx + 1))
      (λ state. status-dev_id r ty f idx state found h e)
      (devices_from-Agrees r ty f n (idx + 1) found h e)

enumerate-Agrees :
    (r : Registry) (m : List (Str × SubmitterFactory))
    → Found r.factories m
    → TypesOk m
    → All (Agrees r) (enumerate_devices m)
unfolding Found TypesOk All enumerate_devices
enumerate-Agrees r [] a b = tt
enumerate-Agrees r ((ty, f) ∷ m) (found, a) (h, e, b) =
    All-append (Agrees r) (devices_from ty f max_devices 0) (enumerate_devices m)
      (devices_from-Agrees r ty f max_devices 0 found h e) (enumerate-Agrees r m a b)

-- What the plugins' registrars do to the registry; a type is a name without a slash.
pub data Reachable : Registry → Type 0 where
  empty : Reachable (record { factories = [] })
  registered :
      {r : Registry} (ty : Str) (f : SubmitterFactory)
      → Reachable r
      → has_slash ty ≡ false
      → is_empty ty ≡ false
      → Reachable (register_type r ty f)
  unregistered : {r : Registry} (ty : Str) → Reachable r → Reachable (unregister_type r ty)

TypesOk-insert :
    (ty : Str) (f : SubmitterFactory) (m : List (Str × SubmitterFactory))
    → has_slash ty ≡ false
    → is_empty ty ≡ false
    → TypesOk m
    → TypesOk (insert ty f m)
unfolding TypesOk insert
TypesOk-insert ty f [] h e s = (h, e, tt)
TypesOk-insert ty f ((k, v) ∷ m) h e (a, b, s) =
    elim (cmp ty k)
      as (λ c. TypesOk (elim c [
        | less ↦ (ty, f) ∷ (k, v) ∷ m
        | equal ↦ (ty, f) ∷ m
        | greater ↦ (k, v) ∷ insert ty f m
      ])) [
        | less ↦ (h, e, (a, b, s))
        | equal ↦ (h, e, s)
        | greater ↦ (a, b, TypesOk-insert ty f m h e s)
      ]

TypesOk-erase : (ty : Str) (m : List (Str × SubmitterFactory)) → TypesOk m → TypesOk (erase ty m)
unfolding TypesOk erase
TypesOk-erase ty [] s = tt
TypesOk-erase ty ((k, v) ∷ m) (a, b, s) =
    elim (cmp ty k) as (λ c. TypesOk (elim c [ equal ↦ m | _ ↦ (k, v) ∷ erase ty m ])) [
      | less ↦ (a, b, TypesOk-erase ty m s)
      | equal ↦ s
      | greater ↦ (a, b, TypesOk-erase ty m s)
    ]

Reachable-ok : {r : Registry} → Reachable r → IsMap r.factories × TypesOk r.factories
unfolding register_type unregister_type IsMap TypesOk
Reachable-ok empty = (tt, tt)
Reachable-ok (registered {r} ty f s h e) =
    let (a, b) = Reachable-ok s in
    (IsMap-insert ty f r.factories a, TypesOk-insert ty f r.factories h e b)
Reachable-ok (unregistered {r} ty s) =
    let (a, b) = Reachable-ok s in (IsMap-erase ty r.factories a, TypesOk-erase ty r.factories b)

-- In every registry that registrars have made, of types named without a slash, with factories
-- that answer a device id the same way each time: each device that ListDevices reports is one that
-- GetDeviceStatus finds, with the state reported.
pub listed_devices_agree : {r : Registry} → Reachable r → All (Agrees r) (list_devices r)
unfolding list_devices
listed_devices_agree {r} s =
    let (a, b) = Reachable-ok s in enumerate-Agrees r r.factories (IsMap-Found r.factories a) b
