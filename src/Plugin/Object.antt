-- ===== src/Plugin/Object.antt =====
-- The plugins as the server's registry has them: AccelPlugin and Crc32Plugin of hwip/accel/plugin
-- and hwip/crc32/plugin as Submitters, their factories, and the registrars of register.cpp.
-- What stands outside is given: which page shm_open finds under a name, the hw-model behind it,
-- and the interleaving of a call with that hw-model.
use Prim.Native.Char.{code}
use Prim.Native.String.{String}
use deepspan.Common.{ℕ, Option, none, some, List, [], ◌∷◌, ◌++◌, replicate}
use deepspan.Shm.{Page}
use deepspan.HwModel.{HwServer, CmdHandler}
use deepspan.Server.StrMap.{Str}
use deepspan.Server.Registry.{
  ℤ, pos, negsuc, SubmitResult, Outcome, threw, returned, Submitter, SubmitterFactory, Registry,
  register_type, unregister_type,
}
use deepspan.Server.DeviceIndex.{parse_device_index}
use deepspan.Server.Decimal.{to_decimal}
use deepspan.Plugin.{
  Cmd, ClientPc, done, Turn, client_turn, run, begin, pack_response, accel_prepare, crc32_prepare,
  DeviceState, no_device, initializing, ready, device_state,
}
use deepspan.Plugin.Ends.{max_turns}

-- The bytes of an ASCII text.
abbrev pub bytes_of : String → Str
bytes_of String.[] = []
bytes_of (String.◌∷◌ c s) = code c ∷ bytes_of s

pub data Kind : Type 0 where
  accel crc32 : Kind

abbrev pub type_name : Kind → Str
type_name accel = bytes_of "accel"
type_name crc32 = bytes_of "crc32"

abbrev pub class_name : Kind → Str
class_name accel = bytes_of "AccelPlugin"
class_name crc32 = bytes_of "Crc32Plugin"

unfoldable pub prepare : Kind → ℕ → List ℕ → Page → Cmd × Page
prepare accel opcode payload p = accel_prepare opcode payload p
prepare crc32 opcode payload p = crc32_prepare opcode payload p

-- What shm_open and mmap make of a name.
pub data Backing : Type 0 where
  absent unmappable : Backing
  backed : HwServer → Backing

-- The names, the handler of the hw-models, and the turns that a call has with its hw-model. After
-- these the client has as many as it can need.
pub record World : Type 0 where
  pub found : Str → Backing
  pub handler : CmdHandler
  pub turns : List Turn

-- As many turns of the client as end any call.
unfoldable pub more_turns : List Turn
more_turns = replicate max_turns client_turn

unfoldable pub shm_name : ℕ → Str
shm_name index = bytes_of "/deepspan_hwip_" ++ to_decimal index

module _ (w : World) (k : Kind) (id : Str) where
  unfoldable pub request_id : ℕ → Str
  request_id opcode = id ++ bytes_of "-" ++ to_decimal opcode

  -- A call that has ended without two words has thrown.
  unfoldable pub outcome_of : ℕ → ClientPc → Outcome SubmitResult
  outcome_of opcode (done r0 r1) =
      returned (record { request_id = request_id opcode; response_data = pack_response r0 r1 })
  outcome_of opcode _ = threw (class_name k ++ bytes_of ": submit timeout for " ++ id)

  unfoldable pub submit_on : HwServer → ℕ → List ℕ → Outcome SubmitResult
  submit_on hw opcode payload =
      let (c, p) = prepare k opcode payload hw.page in
      outcome_of opcode (run w.handler c (begin hw p) (w.turns ++ more_turns)).client

  unfoldable pub submit : Option HwServer → ℕ → List ℕ → Outcome SubmitResult
  submit none opcode payload = threw (class_name k ++ bytes_of ": SHM not mapped for " ++ id)
  submit (some hw) opcode payload = submit_on hw opcode payload

  unfoldable pub int_of : DeviceState → ℤ
  int_of no_device = negsuc 0
  int_of initializing = pos 1
  int_of ready = pos 2

  abbrev pub page_of : Option HwServer → Option Page
  page_of none = none
  page_of (some hw) = some hw.page

  unfoldable pub object : Option HwServer → Submitter
  object o = record {
    submit = submit o;
    device_state = returned (int_of (device_state (page_of o)));
  }

  -- The rest of the constructor, for what is found under the name.
  unfoldable pub open_page : Str → Backing → Outcome (Option Submitter)
  open_page name absent = returned (some (object none))
  open_page name unmappable = threw (class_name k ++ bytes_of ": mmap failed for " ++ name)
  open_page name (backed hw) = returned (some (object (some hw)))

  unfoldable pub make_at : ℤ → Outcome (Option Submitter)
  make_at (negsuc i) = threw (class_name k ++ bytes_of ": bad device_id: " ++ id)
  make_at (pos i) = open_page (shm_name i) (w.found (shm_name i))

unfoldable pub factory : World → Kind → SubmitterFactory
factory w k id = make_at w k id (parse_device_index id)

-- The registrar's constructor, when dlopen loads the plugin, and its destructor.
unfoldable pub registrar : World → Kind → Registry → Registry
registrar w k r = register_type r (type_name k) (factory w k)

unfoldable pub registrar_gone : Kind → Registry → Registry
registrar_gone k r = unregister_type r (type_name k)
