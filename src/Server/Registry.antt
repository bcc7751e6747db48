-- ===== src/Server/Registry.antt =====
-- server/src/registry.cpp and the interface of server/submitter.hpp: the factories by HWIP type.
-- A factory and the Submitters it makes are the plugins' code: parameters here, functions of the
-- device id. The lock makes each method one step.
use deepspan.Common.{
  ℕ, zero, suc, ◌+◌, ◌/◌, ◌%◌, Bool, true, false, if◌then◌else◌, ltb, Option, none, some, List, [],
  ◌∷◌, ◌++◌,
}
use deepspan.Server.StrMap.{Str, insert, erase, find}

-- A C++ int.
pub data ℤ : Type 0 where
  pos negsuc : ℕ → ℤ

abbrev pub is_negative : ℤ → Bool
is_negative (pos n) = false
is_negative (negsuc n) = true

pub record SubmitResult : Type 0 where
  pub request_id : Str
  pub response_data : List ℕ

-- What a call that may throw does: the exception carries its what().
pub data Outcome (A : Type 0) : Type 0 where
  threw : Str → Outcome A
  returned : A → Outcome A

pub record Submitter : Type 0 where
  pub submit : ℕ → List ℕ → Outcome SubmitResult
  pub device_state : Outcome ℤ

-- The factory's pointer may be null.
abbrev pub SubmitterFactory : Type 0
SubmitterFactory = Str → Outcome (Option Submitter)

pub record DeviceInfo : Type 0 where
  pub device_id : Str
  pub state : ℤ

pub record Registry : Type 0 where
  pub factories : List (Str × SubmitterFactory)

unfoldable pub register_type : Registry → Str → SubmitterFactory → Registry
register_type r ty f = record { factories = insert ty f r.factories }

unfoldable pub unregister_type : Registry → Str → Registry
unregister_type r ty = record { factories = erase ty r.factories }

unfoldable pub registered_types : List (Str × SubmitterFactory) → List Str
registered_types [] = []
registered_types ((ty, f) ∷ m) = ty ∷ registered_types m

-- std::to_string of an index below 100.
unfoldable pub to_string : ℕ → Str
to_string n = if ltb n 10 then (48 + n) ∷ [] else (48 + n / 10) ∷ (48 + n % 10) ∷ []

abbrev pub slash : ℕ
slash = 47

-- type + "/" + std::to_string(idx)
unfoldable pub dev_id : Str → ℕ → Str
dev_id ty idx = ty ++ slash ∷ to_string idx

abbrev pub max_devices : ℕ
max_devices = 64

unfoldable pub listed_state : Outcome ℤ → Option ℤ
listed_state (threw what) = none
listed_state (returned state) = if is_negative state then none else some state

-- The body of the inner loop: the state, or none where the loop breaks.
unfoldable pub probe : Outcome (Option Submitter) → Option ℤ
probe (threw what) = none
probe (returned none) = none
probe (returned (some sub)) = listed_state sub.device_state

unfoldable pub listing : Str → Option ℤ → List DeviceInfo → List DeviceInfo
listing id none rest = []
listing id (some state) rest = record { device_id = id; state = state } ∷ rest

-- The inner loop, with `n` iterations left at index `idx`.
unfoldable pub devices_from : Str → SubmitterFactory → ℕ → ℕ → List DeviceInfo
devices_from ty f zero idx = []
devices_from ty f (suc n) idx =
    let rest = devices_from ty f n (idx + 1) in
    listing (dev_id ty idx) (probe (f (dev_id ty idx))) rest

unfoldable pub enumerate_devices : List (Str × SubmitterFactory) → List DeviceInfo
enumerate_devices [] = []
enumerate_devices ((ty, f) ∷ m) = devices_from ty f max_devices 0 ++ enumerate_devices m

unfoldable pub make : Str → Option SubmitterFactory → Option (Outcome (Option Submitter))
make id none = none
make id (some f) = some (f id)

-- `none` is std::nullopt, the type is not registered.
unfoldable pub create : Registry → Str → Str → Option (Outcome (Option Submitter))
create r ty id = make id (find ty r.factories)
