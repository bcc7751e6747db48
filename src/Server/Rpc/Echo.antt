-- ===== src/Server/Rpc/Echo.antt =====
-- ECHO through the server: SubmitRequest of server/src/hwip_service.cpp, the accel plugin of
-- hwip/accel/plugin and a hw-model with the accel dispatch.
use deepspan.Common.{ℕ, ◌%◌, ◌^◌, ◌<◌, ◌≡◌, ap, ◌∙◌, List, ◌∷◌, ◌++◌, take}
use deepspan.Common.Bytes.{IsBytes}
use deepspan.HwModel.{HwServer, CmdHandler}
use deepspan.Accel.{accel_handler, op_echo}
use deepspan.Plugin.{run, response, accel_prepare, begin}
use deepspan.Plugin.EndToEnd.{Waits, accel_echo}
use deepspan.Plugin.Object.{
  World, accel, backed, type_name, bytes_of, shm_name, prepare, more_turns,
}
use deepspan.Server.StrMap.{Str}
use deepspan.Server.Decimal.{to_decimal}
use deepspan.Server.Registry.{Registry, dev_id}
use deepspan.Server.HwipService.{ok, submit_request}
use deepspan.Server.Rpc.{IsLoaded}
use deepspan.Server.Rpc.Response.{IsTimely, submit_request-response, turns-IsFair}

-- With the accel plugin in the registry and a hw-model behind the device that runs, waits,
-- dispatches to the accel model and has its turns in time, ECHO answers with the first eight bytes
-- of a payload that has as many.
pub submit_request-echo :
    (hash : Str → ℕ) (r : Registry) (w : World) (idx : ℕ) (hw : HwServer)
    (b0 b1 b2 b3 b4 b5 b6 b7 : ℕ) (rest : List ℕ)
    → IsLoaded w accel r
    → idx < 100
    → w.found (shm_name idx) ≡ backed hw
    → w.handler ≡ accel_handler
    → IsTimely w
    → Waits hw
    → let payload = b0 ∷ b1 ∷ b2 ∷ b3 ∷ b4 ∷ b5 ∷ b6 ∷ b7 ∷ rest in
      IsBytes payload
      → let id = dev_id (type_name accel) idx in
        submit_request hash r id op_echo payload
        ≡ ok (hash (id ++ bytes_of "-" ++ to_decimal op_echo) % 2 ^ 32, take 8 payload)
unfolding prepare
submit_request-echo hash r w idx hw b0 b1 b2 b3 b4 b5 b6 b7 rest l h b e t wt v =
    submit_request-response hash r w accel idx op_echo hw payload l h b t (take 8 payload) (
      ap
        (λ (g : CmdHandler).
          response
            (run g (accel_prepare op_echo payload hw.page).0
              (begin hw (accel_prepare op_echo payload hw.page).1)
              (t.writing ++ (t.working ++ more_turns))).client)
        e
      ∙ accel_echo hw b0 b1 b2 b3 b4 b5 b6 b7 rest t.writing t.working more_turns wt
          (turns-IsFair hash r w accel idx op_echo hw payload l h b t) v)
  where
    payload : List ℕ
    payload = b0 ∷ b1 ∷ b2 ∷ b3 ∷ b4 ∷ b5 ∷ b6 ∷ b7 ∷ rest
