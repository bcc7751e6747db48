-- ===== src/Firmware/Transport.antt =====
-- firmware/lib/transport: VirtioTransport, as far as it is written (no buffer is sent or received).
use deepspan.Common.{ℕ, ◌≡◌, ◌↔◌, ◌≤◌, Bool, true, false, ltb, if◌then◌else◌, arith}

pub data TransportError : Type 0 where
  ok not_initialized buffer_full send_failed invalid_channel timeout : TransportError

pub data Sent : Type 0 where
  unexpected : TransportError → Sent
  expected : ℕ → Sent

-- VirtioConfig, by its numbers.
pub record Config : Type 0 where
  pub tx_queue_depth : ℕ
  pub rx_queue_depth : ℕ
  pub buf_size : ℕ
  pub total_shm_size : ℕ

unfoldable pub default_config : Config
default_config = record {
  tx_queue_depth = 16;
  rx_queue_depth = 16;
  buf_size = 512;
  total_shm_size = 0x1_0000;
}

pub record VirtioTransport : Type 0 where
  pub cfg : Config
  pub is_ready : Bool

unfoldable pub init : VirtioTransport → ℕ → VirtioTransport × Bool
init t shm_size =
    if ltb shm_size t.cfg.total_shm_size then (t, false) else (record t { is_ready = true }, true)

unfoldable pub send : VirtioTransport → ℕ → Sent
send t len =
    if t.is_ready
    then (if ltb t.cfg.buf_size len then unexpected buffer_full else expected len)
    else unexpected not_initialized

-- A send succeeds just if the transport is ready and the message fits its buffer, and then it
-- counts the whole message.
pub send_iff :
    (t : VirtioTransport) (len n : ℕ)
    → (send t len ≡ expected n) ↔ ((t.is_ready ≡ true) × (len ≤ t.cfg.buf_size) × (n ≡ len))
unfolding send
send_iff t len n = ground arith
