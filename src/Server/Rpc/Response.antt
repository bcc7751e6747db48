-- ===== src/Server/Rpc/Response.antt =====
-- SubmitRequest of server/src/hwip_service.cpp on a device of a plugin whose page is there: the
-- response of the plugin is the answer of the RPC.
use deepspan.Common.{
  ℕ, ◌%◌, ◌^◌, ◌<◌, ◌≤◌, ◌≡◌, refl, ap, ◌∙◌, some, List, [], ◌++◌, arith, Option, none,
}
use mathlib.Core.List.{append_assoc}
use deepspan.Shm.{Page}
use deepspan.HwModel.{HwServer, Reply}
use deepspan.Plugin.{
  Cmd, Turn, ClientPc, done, run, response, pack_response, accel_prepare, crc32_prepare, begin,
  max_polls,
}
use deepspan.Plugin.Progress.{hw_turns, client_turns}
use deepspan.Plugin.Ends.{max_turns, client_turns-replicate}
use deepspan.Plugin.EndToEnd.{Waits, IsFair, submit_response}
use deepspan.Plugin.Object.{
  World, Kind, accel, crc32, backed, type_name, bytes_of, shm_name, open_page, outcome_of,
  submit_on, submit, object, request_id, prepare, more_turns,
}
use deepspan.Server.StrMap.{Str}
use deepspan.Server.Decimal.{to_decimal}
use deepspan.Server.Registry.{returned, Registry, dev_id}
use deepspan.Server.HwipService.{ok, answer_of, submit_with, submit_request}
use deepspan.Server.Rpc.{IsLoaded, submit_request-index}

or_empty : Option (List ℕ) → List ℕ
or_empty none = []
or_empty (some bytes) = bytes

-- The turns of a call that ends: the client writes its registers, then the hw-model works for as
-- long as it needs while the client polls.
pub record IsTimely (w : World) : Type 0 where
  pub writing : List Turn
  pub working : List Turn
  pub whole : w.turns ≡ writing ++ working
  pub writes : client_turns writing ≡ 4
  pub works : 17 ≤ hw_turns working
  pub polls : client_turns working < max_polls

-- The outcome of a call that has its two words.
response-outcome_of :
    (w : World) (k : Kind) (id : Str) (opcode : ℕ) (pc : ClientPc) (bytes : List ℕ)
    → response pc ≡ some bytes
    → outcome_of w k id opcode pc
      ≡ returned (record { request_id = request_id w k id opcode; response_data = bytes })
unfolding response outcome_of or_empty
response-outcome_of w k id opcode (done r0 r1) bytes e =
    ap
      (λ (o : Option (List ℕ)).
        returned (record { request_id = request_id w k id opcode; response_data = or_empty o }))
      e
response-outcome_of w k id opcode _ bytes e = absurd cc

answer_of-returned :
    (hash : Str → ℕ) (id : Str) (bytes : List ℕ)
    → answer_of hash (returned (record { request_id = id; response_data = bytes }))
      ≡ ok (hash id % 2 ^ 32, bytes)
unfolding answer_of
answer_of-returned hash id bytes = refl

more_turns-enough : max_turns ≤ client_turns more_turns
unfolding more_turns
more_turns-enough = omega (arith, client_turns-replicate max_turns)

-- What a call writes leaves the page alone but for its DMA bytes.
prepare-dma :
    (k : Kind) (opcode : ℕ) (payload : List ℕ) (p : Page)
    → (prepare k opcode payload p).1 ≡ record p { dma = (prepare k opcode payload p).1.dma }
unfolding prepare accel_prepare crc32_prepare
prepare-dma accel opcode payload p = refl
prepare-dma crc32 opcode payload p = ground arith

module _ (hash : Str → ℕ) (r : Registry) (w : World) (k : Kind) (idx opcode : ℕ) (hw : HwServer)
    (payload : List ℕ) (loaded : IsLoaded w k r) (small : idx < 100)
    (there : w.found (shm_name idx) ≡ backed hw) (t : IsTimely w) where
  device : Str
  device = dev_id (type_name k) idx

  c : Cmd
  c = (prepare k opcode payload hw.page).0

  p : Page
  p = (prepare k opcode payload hw.page).1

  submit_on-response :
      (bytes : List ℕ)
      → response (run w.handler c (begin hw p) (t.writing ++ (t.working ++ more_turns))).client
        ≡ some bytes
      → submit_on w k device hw opcode payload
        ≡ returned (record { request_id = request_id w k device opcode; response_data = bytes })
  unfolding submit_on c p
  submit_on-response bytes f = response-outcome_of w k device opcode _ _ (
      ap (λ ts. response (run w.handler c (begin hw p) ts).client)
        (ap (λ ts. ts ++ more_turns) t.whole ∙ append_assoc t.writing t.working more_turns)
      ∙ f)

  pub submit_request-response :
      (bytes : List ℕ)
      → response
          (run w.handler
            (prepare k opcode payload hw.page).0
            (begin hw (prepare k opcode payload hw.page).1)
            (t.writing ++ (t.working ++ more_turns))).client
        ≡ some bytes
      → let id = dev_id (type_name k) idx in
        submit_request hash r id opcode payload
        ≡ ok (hash (id ++ bytes_of "-" ++ to_decimal opcode) % 2 ^ 32, bytes)
  unfolding open_page object submit submit_with device request_id c p
  submit_request-response bytes f =
      submit_request-index hash r w k idx opcode payload loaded small
      ∙ ap (λ o. submit_with hash (some (open_page w k device (shm_name idx) o)) opcode payload)
          there
      ∙ ap (answer_of hash) (submit_on-response bytes f)
      ∙ answer_of-returned hash (request_id w k device opcode) bytes

  pub turns-IsFair : IsFair t.writing t.working more_turns
  turns-IsFair = record {
    writes = t.writes;
    works = t.works;
    polls = t.polls;
    reads = omega (arith, more_turns-enough);
  }

-- With the plugin in the registry, whatever else is, and a hw-model behind the device that runs,
-- waits and has its turns in time, SubmitRequest with any opcode and payload on the device of an
-- index below 100 answers with the two data words of the handler's reply, as a success: the reply's
-- status, which says whether the command failed, makes no difference.
pub submit_request-reply :
    (hash : Str → ℕ) (r : Registry) (w : World) (k : Kind) (idx opcode : ℕ) (hw : HwServer)
    (payload : List ℕ) (reply : Reply)
    → IsLoaded w k r
    → idx < 100
    → w.found (shm_name idx) ≡ backed hw
    → IsTimely w
    → Waits hw
    → let (c, p) = prepare k opcode payload hw.page in
      w.handler p.dma c.opcode c.arg0 c.arg1 ≡ some reply
      → let id = dev_id (type_name k) idx in
        submit_request hash r id opcode payload
        ≡ ok (
          hash (id ++ bytes_of "-" ++ to_decimal opcode) % 2 ^ 32,
          pack_response reply.data0 reply.data1,
        )
submit_request-reply hash r w k idx opcode hw payload reply l h b t wt e =
    submit_request-response hash r w k idx opcode hw payload l h b t
      (pack_response reply.data0 reply.data1)
      (ap
          (λ (q : Page).
            response (run w.handler c (begin hw q) (t.writing ++ (t.working ++ more_turns))).client)
          (prepare-dma k opcode payload hw.page)
        ∙ submit_response w.handler c hw (prepare k opcode payload hw.page).1.dma t.writing
            t.working more_turns reply wt (turns-IsFair hash r w k idx opcode hw payload l h b t) e)
  where
    c : Cmd
    c = (prepare k opcode payload hw.page).0
