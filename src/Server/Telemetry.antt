-- ===== src/Server/Telemetry.antt =====
-- server/src/telemetry_service.cpp: GetTelemetry on the statistics of the page.
use deepspan.Common.{
  ℕ, ◌-◌, ◌*◌, ◌%◌, ◌^◌, ◌≤◌, ◌<◌, ◌≡◌, if◌then◌else◌, ltb, leb, min, Option, none, some, arith,
}
use deepspan.Shm.{Page}
use deepspan.Server.Registry.{ℤ, pos, negsuc}

pub record Metrics : Type 0 where
  pub uptime_ms : ℕ
  pub irq_count : ℕ
  pub pending_cmds : ℕ

unfoldable pub uint32_max : ℕ
uint32_max = 0xffff_ffff

-- Milliseconds since the start, in 64 bits; 0 where the start is unknown or ahead.
unfoldable pub uptime : ℕ → ℕ → ℕ
uptime start now =
    if ltb 0 start then (if leb start now then (now - start) * 1000 % 2 ^ 64 else 0) else 0

unfoldable pub clamp : ℕ → ℕ
clamp ms = if ltb uint32_max ms then uint32_max else ms

unfoldable pub snapshot : ℕ → Page → Metrics
snapshot now p = record {
  uptime_ms = clamp (uptime p.stats.start_time_sec now);
  irq_count = p.stats.cmd_count;
  pending_cmds = p.stats.fw_cmd_count % 2 ^ 32;
}

-- `shm` is the page if it can be opened and mapped; without it the metrics stay unset.
unfoldable pub get_telemetry : ℕ → ℤ → Option Page → Option Metrics
get_telemetry now (negsuc i) shm = none
get_telemetry now (pos i) none = none
get_telemetry now (pos i) (some p) = some (snapshot now p)

-- The reported uptime is the time since the hw-model's start in milliseconds, cut off at the
-- largest uint32_t, unless the product leaves 64 bits.
pub snapshot_uptime :
    (now : ℕ) (p : Page)
    → 0 < p.stats.start_time_sec
    → p.stats.start_time_sec ≤ now
    → (now - p.stats.start_time_sec) * 1000 < 2 ^ 64
    → (snapshot now p).uptime_ms ≡ min ((now - p.stats.start_time_sec) * 1000) 0xffff_ffff
unfolding snapshot clamp uptime uint32_max
snapshot_uptime now p h k l = ground (arith, h, k, l)
