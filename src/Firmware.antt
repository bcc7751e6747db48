-- ===== src/Firmware.antt =====
-- firmware: the Zephyr side, which drives the hw-model through the shared page.
pub mod Driver
pub mod Sticky
pub mod Safety
pub mod Phases
pub mod Stale
pub mod Start
pub mod App
pub mod AppStale
pub mod Boot
pub mod Transport
