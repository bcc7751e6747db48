-- ===== src/Plugin.antt =====
-- AccelPlugin::submit and Crc32Plugin::submit (hwip/accel/plugin/accel_plugin.cpp,
-- hwip/crc32/plugin/crc32_plugin.cpp): the part that both share, from the first register write to
-- the response. It is taken apart into its single accesses, so that it can be interleaved with
-- the hw-model, which runs in another process. Its mutex belongs to one plugin object.
pub mod Safety
pub mod Progress
pub mod EndToEnd
pub mod Races
pub mod Mapping
pub mod Ends
pub mod Object
use deepspan.Common.{
  ℕ, ◌+◌, if◌then◌else◌, ltb, leb, ◌==◌, min, bit_and, Option, none, some, List, [], ◌∷◌, ◌++◌,
  take, drop, length,
}
use deepspan.Common.Bytes.{le32, le_value}
use deepspan.Shm.{Page, RegMap, ready_bit}
use deepspan.Shm.Ctrl.{has_start, set_start}
use deepspan.HwModel.{HwServer, CmdHandler, hw_step}

pub record Cmd : Type 0 where
  pub opcode : ℕ
  pub arg0 : ℕ
  pub arg1 : ℕ

abbrev pub max_polls : ℕ
max_polls = 50_000

-- Where a call of `submit` stands. `polling i` is round `i` of the wait; `timed_out` has thrown.
pub data ClientPc : Type 0 where
  write_opcode write_arg0 write_arg1 starting : ClientPc
  polling : ℕ → ClientPc
  read_data0 : ClientPc
  read_data1 : ℕ → ClientPc
  done : ℕ → ℕ → ClientPc
  timed_out : ClientPc

abbrev pub with_regs : Page → RegMap → Page
with_regs p r = record p { regs = r }

unfoldable pub client_step : Cmd → ClientPc → Page → ClientPc × Page
client_step c write_opcode p = (write_arg0, with_regs p (record p.regs { cmd_opcode = c.opcode }))
client_step c write_arg0 p = (write_arg1, with_regs p (record p.regs { cmd_arg0 = c.arg0 }))
client_step c write_arg1 p = (starting, with_regs p (record p.regs { cmd_arg1 = c.arg1 }))
client_step c starting p = (polling 0, with_regs p (record p.regs { ctrl = set_start p.regs.ctrl }))
client_step c (polling i) p =
    if ltb i max_polls
    then (if has_start p.regs.ctrl then (polling (i + 1), p) else (read_data0, p))
    else (timed_out, p)
client_step c read_data0 p = (read_data1 p.regs.result_data0, p)
client_step c (read_data1 r0) p = (done r0 p.regs.result_data1, p)
client_step c (done r0 r1) p = (done r0 r1, p)
client_step c timed_out p = (timed_out, p)

-- The 8 response bytes.
unfoldable pub pack_response : ℕ → ℕ → List ℕ
pack_response r0 r1 = le32 r0 ++ le32 r1

-- What the caller of `submit` has: the response, or nothing while it waits and after the throw.
unfoldable pub response : ClientPc → Option (List ℕ)
response (done r0 r1) = some (pack_response r0 r1)
response _ = none

-- One client and the hw-model on one page.
pub record System : Type 0 where
  pub hw : HwServer
  pub client : ClientPc

pub data Turn : Type 0 where
  hw_turn client_turn : Turn

module _ (handler : CmdHandler) (c : Cmd) where
  unfoldable pub step : System → Turn → System
  step s hw_turn = record s { hw = hw_step handler s.hw }
  step s client_turn =
      let (pc, page) = client_step c s.client s.hw.page in
      record { hw = record s.hw { page = page }; client = pc }

  -- An interleaving is the list of turns.
  unfoldable pub run : System → List Turn → System
  run s [] = s
  run s (t ∷ ts) = run (step s t) ts

-- fixed_args: arg0 and arg1 from the payload, 0 where it is too short.
unfoldable pub fixed_args : ℕ → List ℕ → Cmd
fixed_args opcode payload = record {
  opcode = opcode;
  arg0 = if leb 4 (length payload) then le_value (take 4 payload) else 0;
  arg1 = if leb 8 (length payload) then le_value (take 4 (drop 4 payload)) else 0;
}

-- AccelPlugin::submit up to the register writes.
unfoldable pub accel_prepare : ℕ → List ℕ → Page → Cmd × Page
accel_prepare opcode payload p = (fixed_args opcode payload, p)

abbrev pub dma_max_len : ℕ
dma_max_len = 0xc00

-- memcpy to the DMA area.
abbrev pub copy_to_dma : List ℕ → Page → Page
copy_to_dma bytes p = record p { dma = bytes ++ drop (length bytes) p.dma }

-- Crc32Plugin::submit up to the register writes. The length is cut to a uint32_t after the `min`,
-- which changes nothing.
unfoldable pub crc32_prepare : ℕ → List ℕ → Page → Cmd × Page
crc32_prepare opcode payload p =
    if opcode == 1
    then (let len = min (length payload) dma_max_len in
        (record { opcode = opcode; arg0 = len; arg1 = 0 }, copy_to_dma (take len payload) p))
    else (fixed_args opcode payload, p)

-- The system when the register writes begin.
abbrev pub begin : HwServer → Page → System
begin hw p = record { hw = record hw { page = p }; client = write_opcode }

-- device_state: DEVICE_STATE_READY is 2, DEVICE_STATE_INITIALIZING 1, and -1 without a mapping.
pub data DeviceState : Type 0 where
  no_device initializing ready : DeviceState

unfoldable pub device_state : Option Page → DeviceState
device_state none = no_device
device_state (some p) = if bit_and p.regs.status ready_bit == 0 then initializing else ready
