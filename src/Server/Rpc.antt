-- ===== src/Server/Rpc.antt =====
-- server/src/hwip_service.cpp, server/src/registry.cpp and the plugins of hwip/ together: the RPCs
-- on the devices of a plugin whose factory is in the registry.
pub mod Response
pub mod Compute
pub mod Echo
pub mod Loading
pub mod Listed
use deepspan.Common.{
  ℕ, ◌+◌, ◌%◌, ◌^◌, ◌<◌, ◌≤◌, ◌≡◌, ◌≢◌, refl, sym, ap, ◌∙◌, false, some, List, [], ◌++◌, take,
  replicate, arith, ◌∷◌, ap₂, Option, none, length, min,
}
use mathlib.Core.List.{append_assoc}
use deepspan.HwModel.{HwServer, CmdHandler, default_handler}
use deepspan.Crc32.{op_compute}
use deepspan.Crc32.Serial.{serial_crc32}
use deepspan.Crc32.Handler.{crc32_handler}
use deepspan.Common.Bytes.{IsBytes}
use deepspan.Plugin.{
  Turn, ClientPc, done, client_turn, run, response, pack_response, crc32_prepare, dma_max_len,
  begin, max_polls,
}
use deepspan.Plugin.Progress.{hw_turns, client_turns}
use deepspan.Plugin.Ends.{max_turns, client_turns-replicate}
use deepspan.Plugin.EndToEnd.{Waits, IsFair, crc32_submit, crc32_submit_default}
use deepspan.Plugin.Object.{
  World, Kind, accel, crc32, Backing, absent, unmappable, backed, type_name, class_name, bytes_of,
  shm_name, open_page, make_at, factory, registrar, outcome_of, submit_on, submit, object,
  request_id, prepare, more_turns,
}
use deepspan.Server.StrMap.{Str, find}
use deepspan.Server.Decimal.{decimal, to_decimal}
use deepspan.Server.Registry.{
  pos, negsuc, Outcome, threw, returned, Submitter, SubmitterFactory, Registry, register_type,
  slash, to_string, dev_id, create, make,
}
use deepspan.Server.DeviceIndex.{parse_device_index, parse_device_index-dev_id}
use deepspan.Server.HwipService.{
  Status, ok, internal, escapes, is_empty, answer_of, submit_with, submit_at, submit_request,
  parse_device_id,
}
use deepspan.Server.HwipService.Parse.{has_slash, parse_device_id-join}
use deepspan.Server.Listing.{to_string-nonempty}

type_name-ok : (k : Kind) → (has_slash (type_name k) ≡ false) × (is_empty (type_name k) ≡ false)
unfolding has_slash
type_name-ok accel = (refl, refl)
type_name-ok crc32 = (refl, refl)

-- The registry has the factory of the plugin, as its registrar leaves it.
abbrev pub IsLoaded : World → Kind → Registry → Type 0
IsLoaded w k r = find (type_name k) r.factories ≡ some (factory w k)

-- Whatever follows the plugin's type in the device id, its factory is asked.
pub submit_request-factory :
    (hash : Str → ℕ) (r : Registry) (w : World) (k : Kind) (index : Str) (opcode : ℕ)
    (payload : List ℕ)
    → IsLoaded w k r
    → is_empty index ≡ false
    → let id = type_name k ++ slash ∷ index in
      submit_request hash r id opcode payload
      ≡ submit_with hash (some (factory w k id)) opcode payload
unfolding submit_request submit_at create make
submit_request-factory hash r w k index opcode payload l e =
    ap (λ p. submit_at hash r (type_name k ++ slash ∷ index) p opcode payload)
      (parse_device_id-join (type_name k) index (type_name-ok k).0 (type_name-ok k).1 e)
    ∙ ap (λ o. submit_with hash (make (type_name k ++ slash ∷ index) o) opcode payload) l

pub submit_request-index :
    (hash : Str → ℕ) (r : Registry) (w : World) (k : Kind) (idx : ℕ) (opcode : ℕ) (payload : List ℕ)
    → IsLoaded w k r
    → idx < 100
    → let id = dev_id (type_name k) idx in
      submit_request hash r id opcode payload
      ≡ submit_with hash
          (some (open_page w k id (shm_name idx) (w.found (shm_name idx))))
          opcode
          payload
unfolding dev_id factory make_at
submit_request-index hash r w k idx opcode payload l h =
    submit_request-factory hash r w k (to_string idx) opcode payload l (to_string-nonempty idx)
    ∙ ap (λ i. submit_with hash (some (make_at w k (dev_id (type_name k) idx) i)) opcode payload)
        (parse_device_index-dev_id (type_name k) idx h)

-- What SubmitRequest answers on a device id of the plugin when there is no device to serve it:
-- INTERNAL with the plugin's message where no page has the device's name; and an exception that
-- leaves the handler, for the constructor runs outside its try block, where the page cannot be
-- mapped and where what follows the type is not an index.
pub submit_request-errors :
    (hash : Str → ℕ) (r : Registry) (w : World) (k : Kind) (opcode : ℕ) (payload : List ℕ)
    → IsLoaded w k r
    → ((idx : ℕ)
        → idx < 100
        → w.found (shm_name idx) ≡ absent
        → let id = dev_id (type_name k) idx in
          submit_request hash r id opcode payload
          ≡ internal (class_name k ++ bytes_of ": SHM not mapped for " ++ id))
      × ((idx : ℕ)
          → idx < 100
          → w.found (shm_name idx) ≡ unmappable
          → submit_request hash r (dev_id (type_name k) idx) opcode payload
            ≡ escapes (class_name k ++ bytes_of ": mmap failed for " ++ shm_name idx))
      × ((index : Str) (i : ℕ)
          → is_empty index ≡ false
          → parse_device_index (type_name k ++ slash ∷ index) ≡ negsuc i
          → let id = type_name k ++ slash ∷ index in
            submit_request hash r id opcode payload
            ≡ escapes (class_name k ++ bytes_of ": bad device_id: " ++ id))
unfolding open_page object submit submit_with answer_of factory make_at
submit_request-errors hash r w k opcode payload l = (
  λ idx h b.
      submit_request-index hash r w k idx opcode payload l h
      ∙ ap
          (λ o.
            submit_with hash (some (open_page w k (dev_id (type_name k) idx) (shm_name idx) o))
              opcode payload)
          b,
  λ idx h b.
      submit_request-index hash r w k idx opcode payload l h
      ∙ ap
          (λ o.
            submit_with hash (some (open_page w k (dev_id (type_name k) idx) (shm_name idx) o))
              opcode payload)
          b,
  λ index i e n.
      submit_request-factory hash r w k index opcode payload l e
      ∙ ap
          (λ j.
            submit_with hash (some (make_at w k (type_name k ++ slash ∷ index) j)) opcode payload)
          n,
)
