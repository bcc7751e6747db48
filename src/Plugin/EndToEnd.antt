-- ===== src/Plugin/EndToEnd.antt =====
-- Plugin and hw-model together: what the caller of `submit` gets from each HWIP.
use deepspan.Common.{
  ℕ, ◌^◌, ◌<◌, ◌≤◌, ◌≡◌, ◌≢◌, refl, ap, ap₂, ◌∙◌, true, false, some, List, [], ◌∷◌, ◌++◌, take,
  drop, length, min, arith, length-append, length-take, length-drop, take-append_left,
  take-min-length,
}
use deepspan.Common.Bytes.{
  IsBytes, IsBytes-append, IsBytes-take, IsBytes-drop, le32-le_value, le_value,
}
use deepspan.Shm.{dma_room}
use deepspan.Shm.Ctrl.{has_start}
use deepspan.HwModel.{HwServer, Reply, CmdHandler, default_handler, exited}
use deepspan.Crc32.{op_compute}
use deepspan.Crc32.Serial.{serial_crc32}
use deepspan.Crc32.Handler.{crc32_handler, crc32_handler-compute}
use deepspan.Accel.{accel_handler, dispatch, op_echo}
use deepspan.Plugin.{
  Cmd, max_polls, Turn, run, response, pack_response, fixed_args, accel_prepare, crc32_prepare,
  dma_max_len, begin,
}
use deepspan.Plugin.Safety.{Quiet}
use deepspan.Plugin.Progress.{hw_turns, client_turns, run_returns}

-- A hw-model that runs and waits for a command.
pub record Waits (hw : HwServer) : Type 0 where
  pub clear : has_start hw.page.regs.ctrl ≡ false
  pub quiet : Quiet hw.pc
  pub word : hw.page.regs.ctrl < 2 ^ 32
  pub on : hw.running ≡ true
  pub awake : hw.pc ≢ exited
  pub dma_length : length hw.page.dma ≡ dma_room
  pub dma_bytes : IsBytes hw.page.dma

-- An interleaving in which both sides are given their turns: the client writes its registers, the
-- hw-model works while the client polls, and the client reads the result.
pub record IsFair (ts us vs : List Turn) : Type 0 where
  pub writes : client_turns ts ≡ 4
  pub works : 17 ≤ hw_turns us
  pub polls : client_turns us < max_polls
  pub reads : 3 ≤ client_turns vs

-- The page after a payload has been copied to its DMA area, as COMPUTE reads it.
crc32_page :
    (sent dma : List ℕ) (len : ℕ)
    → length sent ≡ len
    → length dma ≡ dma_room
    → len ≤ dma_room
    → IsBytes dma
    → IsBytes sent
    → let area = sent ++ drop (length sent) dma in
      IsBytes area × (len ≤ length area) × (take len area ≡ sent)
crc32_page sent dma len e h k vd vs = (
  IsBytes-append sent (drop (length sent) dma) vs (IsBytes-drop (length sent) dma vd),
  omega (arith, length-append sent (drop (length sent) dma), length-drop (length sent) dma),
  take-append_left sent (drop (length sent) dma) len e,
)

pub submit_response :
    (handler : CmdHandler) (c : Cmd) (hw : HwServer) (area : List ℕ) (ts us vs : List Turn)
    (r : Reply)
    → Waits hw
    → IsFair ts us vs
    → handler area c.opcode c.arg0 c.arg1 ≡ some r
    → response (run handler c (begin hw (record hw.page { dma = area })) (ts ++ (us ++ vs))).client
      ≡ some (pack_response r.data0 r.data1)
submit_response handler c hw area ts us vs r w f answers =
    ap response (
      run_returns handler c (begin hw (record hw.page { dma = area })) ts us vs r
        (record { first = refl; idle = (w.clear, w.quiet); word = w.word }) w.on w.awake answers
        f.writes f.works f.polls f.reads)
    ∙ unfold response in refl

-- With a hw-model that runs and waits, in an interleaving that gives both sides their turns:
-- whatever bytes the payload has, COMPUTE through the plugin returns the serial CRC-32 of its
-- first 3072 bytes, little-endian, and four zero bytes. That is the whole payload up to that
-- length, and silently a part of a longer one.
pub crc32_submit :
    (hw : HwServer) (payload : List ℕ) (ts us vs : List Turn)
    → Waits hw
    → IsFair ts us vs
    → IsBytes payload
    → let (c, p) = crc32_prepare op_compute payload hw.page in
      response (run crc32_handler c (begin hw p) (ts ++ (us ++ vs))).client
      ≡ some (pack_response (serial_crc32 (take dma_max_len payload)) 0)
unfolding crc32_prepare
crc32_submit hw payload ts us vs w f v =
    submit_response crc32_handler (record { opcode = op_compute; arg0 = len; arg1 = 0 }) hw
      (sent ++ drop (length sent) hw.page.dma) ts us vs _ w f
      (crc32_handler-compute (sent ++ drop (length sent) hw.page.dma) len 0 area.0 area.1
        ∙ ap
            (λ (bytes : List ℕ).
              some (record { status = 0; data0 = serial_crc32 bytes; data1 = 0 }))
            (area.2 ∙ take-min-length dma_max_len payload))
  where
    len : ℕ
    len = min (length payload) dma_max_len

    sent : List ℕ
    sent = take len payload

    area :
        let area = sent ++ drop (length sent) hw.page.dma in
        IsBytes area × (len ≤ length area) × (take len area ≡ sent)
    area =
        crc32_page sent hw.page.dma len (omega (arith, length-take len payload)) w.dma_length
          (omega arith) w.dma_bytes (IsBytes-take len payload v)

-- In the same situation, with the default handler: COMPUTE returns the number of bytes sent.
pub crc32_submit_default :
    (hw : HwServer) (payload : List ℕ) (ts us vs : List Turn)
    → Waits hw
    → IsFair ts us vs
    → let (c, p) = crc32_prepare op_compute payload hw.page in
      response (run default_handler c (begin hw p) (ts ++ (us ++ vs))).client
      ≡ some (pack_response (min (length payload) dma_max_len) 0)
unfolding crc32_prepare
crc32_submit_default hw payload ts us vs w f =
    submit_response default_handler (record { opcode = op_compute; arg0 = len; arg1 = 0 }) hw
      (sent ++ drop (length sent) hw.page.dma) ts us vs
      (record { status = 0; data0 = len; data1 = 0 }) w f (unfold default_handler in refl)
  where
    len : ℕ
    len = min (length payload) dma_max_len

    sent : List ℕ
    sent = take len payload

fixed_args_words :
    (opcode b0 b1 b2 b3 b4 b5 b6 b7 : ℕ) (rest : List ℕ)
    → fixed_args opcode (b0 ∷ b1 ∷ b2 ∷ b3 ∷ b4 ∷ b5 ∷ b6 ∷ b7 ∷ rest) ≡ record {
      opcode = opcode;
      arg0 = le_value (b0 ∷ b1 ∷ b2 ∷ b3 ∷ []);
      arg1 = le_value (b4 ∷ b5 ∷ b6 ∷ b7 ∷ []);
    }
unfolding fixed_args
fixed_args_words opcode b0 b1 b2 b3 b4 b5 b6 b7 rest = ground arith

-- With a hw-model that runs and waits, in an interleaving that gives both sides their turns:
-- ECHO through the plugin returns the first eight bytes of a payload that has as many.
pub accel_echo :
    (hw : HwServer) (b0 b1 b2 b3 b4 b5 b6 b7 : ℕ) (rest : List ℕ) (ts us vs : List Turn)
    → Waits hw
    → IsFair ts us vs
    → IsBytes (b0 ∷ b1 ∷ b2 ∷ b3 ∷ b4 ∷ b5 ∷ b6 ∷ b7 ∷ rest)
    → let payload = b0 ∷ b1 ∷ b2 ∷ b3 ∷ b4 ∷ b5 ∷ b6 ∷ b7 ∷ rest in
      let (c, p) = accel_prepare op_echo payload hw.page in
      response (run accel_handler c (begin hw p) (ts ++ (us ++ vs))).client ≡ some (take 8 payload)
unfolding accel_prepare
accel_echo hw b0 b1 b2 b3 b4 b5 b6 b7 rest ts us vs w f v =
    rw (fixed_args_words op_echo b0 b1 b2 b3 b4 b5 b6 b7 rest) (
      submit_response accel_handler (record { opcode = op_echo; arg0 = arg0; arg1 = arg1 }) hw
        hw.page.dma ts us vs (record { status = 0; data0 = arg0; data1 = arg1 }) w f
        (unfold accel_handler dispatch in refl)
      ∙ ap some same)
  where
    arg0 : ℕ
    arg0 = le_value (b0 ∷ b1 ∷ b2 ∷ b3 ∷ [])

    arg1 : ℕ
    arg1 = le_value (b4 ∷ b5 ∷ b6 ∷ b7 ∷ [])

    same : pack_response arg0 arg1 ≡ b0 ∷ b1 ∷ b2 ∷ b3 ∷ b4 ∷ b5 ∷ b6 ∷ b7 ∷ []
    same =
        unfold pack_response in
        ap₂ ◌++◌ (le32-le_value b0 b1 b2 b3 [] (v.0, (v.1.0, (v.1.1.0, (v.1.1.1.0, tt)))))
          (le32-le_value b4 b5 b6 b7 rest v.1.1.1.1)
