-- ===== src/Server/Rpc/Compute.antt =====
-- COMPUTE through the server: SubmitRequest of server/src/hwip_service.cpp, the crc32 plugin of
-- hwip/crc32/plugin and a hw-model.
use deepspan.Common.{ℕ, ◌%◌, ◌^◌, ◌<◌, ◌≡◌, refl, ap, ◌∙◌, some, List, ◌++◌, take, length, min}
use mathlib.Core.List.{append_assoc}
use deepspan.HwModel.{HwServer, CmdHandler, default_handler}
use deepspan.Crc32.{op_compute}
use deepspan.Crc32.Serial.{serial_crc32}
use deepspan.Crc32.Handler.{crc32_handler}
use deepspan.Common.Bytes.{IsBytes}
use deepspan.Plugin.{run, response, pack_response, crc32_prepare, dma_max_len, begin}
use deepspan.Plugin.EndToEnd.{Waits, crc32_submit, crc32_submit_default}
use deepspan.Plugin.Object.{
  World, crc32, backed, type_name, bytes_of, shm_name, prepare, more_turns,
}
use deepspan.Server.StrMap.{Str}
use deepspan.Server.Decimal.{decimal, to_decimal}
use deepspan.Server.Registry.{Registry, dev_id}
use deepspan.Server.HwipService.{ok, submit_request}
use deepspan.Server.Rpc.{IsLoaded}
use deepspan.Server.Rpc.Response.{IsTimely, submit_request-response, turns-IsFair}

-- What COMPUTE answers with a handler, from what its plugin responds.
compute-response :
    (hash : Str → ℕ) (r : Registry) (w : World) (idx : ℕ) (hw : HwServer) (payload bytes : List ℕ)
    (handler : CmdHandler)
    → IsLoaded w crc32 r
    → idx < 100
    → w.found (shm_name idx) ≡ backed hw
    → w.handler ≡ handler
    → (t : IsTimely w)
    → let (c, p) = crc32_prepare op_compute payload hw.page in
      response (run handler c (begin hw p) (t.writing ++ (t.working ++ more_turns))).client
        ≡ some bytes
      → let id = dev_id (type_name crc32) idx in
        submit_request hash r id op_compute payload
        ≡ ok (hash (id ++ bytes_of "-1") % 2 ^ 32, bytes)
unfolding prepare
compute-response hash r w idx hw payload bytes handler l h b e t f =
    submit_request-response hash r w crc32 idx op_compute hw payload l h b t bytes (
      ap
        (λ (g : CmdHandler).
          response
            (run g (crc32_prepare op_compute payload hw.page).0
              (begin hw (crc32_prepare op_compute payload hw.page).1)
              (t.writing ++ (t.working ++ more_turns))).client)
        e
      ∙ f)
    ∙ ap (λ (q : Str). ok (hash q % 2 ^ 32, bytes)) (named (dev_id (type_name crc32) idx))
  where
    named : (id : Str) → id ++ bytes_of "-" ++ to_decimal op_compute ≡ id ++ bytes_of "-1"
    named id =
        let one : to_decimal op_compute ≡ bytes_of "1" = unfold decimal to_decimal in refl in
        ap (λ (d : Str). id ++ bytes_of "-" ++ d) one
        ∙ append_assoc id (bytes_of "-") (bytes_of "1")

-- With the crc32 plugin in the registry, whatever else is, and a hw-model behind the device that
-- runs, waits, dispatches to the crc32 model and has its turns in time: through SubmitRequest, the
-- registry and the plugin, COMPUTE on the device of an index below 100 answers with the serial
-- CRC-32 of the first 3072 bytes of the payload, little-endian, and four zero bytes.
pub submit_request-compute :
    (hash : Str → ℕ) (r : Registry) (w : World) (idx : ℕ) (hw : HwServer) (payload : List ℕ)
    → IsLoaded w crc32 r
    → idx < 100
    → w.found (shm_name idx) ≡ backed hw
    → w.handler ≡ crc32_handler
    → IsTimely w
    → Waits hw
    → IsBytes payload
    → let id = dev_id (type_name crc32) idx in
      submit_request hash r id op_compute payload
      ≡ ok (
        hash (id ++ bytes_of "-1") % 2 ^ 32,
        pack_response (serial_crc32 (take dma_max_len payload)) 0,
      )
submit_request-compute hash r w idx hw payload l h b e t wt v =
    compute-response hash r w idx hw payload
      (pack_response (serial_crc32 (take dma_max_len payload)) 0) crc32_handler l h b e t
      (crc32_submit hw payload t.writing t.working more_turns wt
        (turns-IsFair hash r w crc32 idx op_compute hw payload l h b t) v)

-- The process of sim/hw-model/src/main.cpp sets no handler, so that the default one answers: in the
-- same situation, COMPUTE answers with the number of bytes that were sent and not with a checksum,
-- as a success.
pub submit_request-default :
    (hash : Str → ℕ) (r : Registry) (w : World) (idx : ℕ) (hw : HwServer) (payload : List ℕ)
    → IsLoaded w crc32 r
    → idx < 100
    → w.found (shm_name idx) ≡ backed hw
    → w.handler ≡ default_handler
    → IsTimely w
    → Waits hw
    → let id = dev_id (type_name crc32) idx in
      submit_request hash r id op_compute payload
      ≡ ok (hash (id ++ bytes_of "-1") % 2 ^ 32, pack_response (min (length payload) dma_max_len) 0)
submit_request-default hash r w idx hw payload l h b e t wt =
    compute-response hash r w idx hw payload (pack_response (min (length payload) dma_max_len) 0)
      default_handler l h b e t
      (crc32_submit_default hw payload t.writing t.working more_turns wt
        (turns-IsFair hash r w crc32 idx op_compute hw payload l h b t))
