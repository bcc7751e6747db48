-- ===== src/Server/HwipService.antt =====
-- server/src/hwip_service.cpp: the gRPC methods that address a device by its id.
pub mod Parse
use deepspan.Common.{
  ℕ, Bool, true, false, if◌then◌else◌, ◌==◌, ◌%◌, ◌^◌, Option, none, some, List, [], ◌∷◌,
}
use deepspan.Server.StrMap.{Str}
use deepspan.Server.Registry.{
  ℤ, pos, SubmitResult, Outcome, threw, returned, Submitter, DeviceInfo, Registry,
  enumerate_devices, create, slash,
}

unfoldable pub prefixed : ℕ → Option (Str × Str) → Option (Str × Str)
prefixed c none = none
prefixed c (some (before, after)) = some (c ∷ before, after)

-- The id up to its first slash, and what follows that; none if it has no slash.
unfoldable pub cut : Str → Option (Str × Str)
cut [] = none
cut (c ∷ cs) = let rest = cut cs in if c == slash then some ([], cs) else prefixed c rest

abbrev pub is_empty : Str → Bool
is_empty [] = true
is_empty (c ∷ cs) = false

-- A slash at the front or at the end is refused.
unfoldable pub nonempty : Option (Str × Str) → Option (Str × Str)
nonempty none = none
nonempty (some ([], index)) = none
nonempty (some (c ∷ cs, [])) = none
nonempty (some (c ∷ cs, d ∷ ds)) = some (c ∷ cs, d ∷ ds)

unfoldable pub parse_device_id : Str → Option (Str × Str)
parse_device_id id = nonempty (cut id)

-- A handler's end: a gRPC status, an exception that leaves it, or the null pointer it follows.
pub data Status (A : Type 0) : Type 0 where
  ok : A → Status A
  invalid_argument not_found : Status A
  internal : Str → Status A
  escapes : Str → Status A
  null_deref : Status A

unfoldable pub status_of : Outcome ℤ → Status ℤ
status_of (threw what) = escapes what
status_of (returned state) = ok state

unfoldable pub state_of : Option (Outcome (Option Submitter)) → Status ℤ
state_of none = not_found
state_of (some (threw what)) = escapes what
state_of (some (returned none)) = null_deref
state_of (some (returned (some sub))) = status_of sub.device_state

unfoldable pub status_at : Registry → Str → Option (Str × Str) → Status ℤ
status_at r id none = invalid_argument
status_at r id (some (ty, index)) = state_of (create r ty id)

unfoldable pub get_device_status : Registry → Str → Status ℤ
get_device_status r id = status_at r id (parse_device_id id)

unfoldable pub list_devices : Registry → List DeviceInfo
list_devices r = enumerate_devices r.factories

-- The request id on the wire is the low half of a hash that the C++ library chooses.
unfoldable pub answer_of : (Str → ℕ) → Outcome SubmitResult → Status (ℕ × List ℕ)
answer_of hash (threw what) = internal what
answer_of hash (returned result) = ok (hash result.request_id % 2 ^ 32, result.response_data)

unfoldable pub submit_with :
    (Str → ℕ) → Option (Outcome (Option Submitter)) → ℕ → List ℕ → Status (ℕ × List ℕ)
submit_with hash none opcode payload = not_found
submit_with hash (some (threw what)) opcode payload = escapes what
submit_with hash (some (returned none)) opcode payload = null_deref
submit_with hash (some (returned (some sub))) opcode payload =
    answer_of hash (sub.submit opcode payload)

unfoldable pub submit_at :
    (Str → ℕ) → Registry → Str → Option (Str × Str) → ℕ → List ℕ → Status (ℕ × List ℕ)
submit_at hash r id none opcode payload = invalid_argument
submit_at hash r id (some (ty, index)) opcode payload =
    submit_with hash (create r ty id) opcode payload

unfoldable pub submit_request : (Str → ℕ) → Registry → Str → ℕ → List ℕ → Status (ℕ × List ℕ)
submit_request hash r id opcode payload = submit_at hash r id (parse_device_id id) opcode payload
