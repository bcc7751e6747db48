-- ===== src/Server.antt =====
-- The server of server/: its plugin registry and the services that stand on it.
pub mod StrMap
pub mod Registry
pub mod HwipService
pub mod Listing
pub mod Rpc
pub mod Mgmt
pub mod FirmwareInfo
pub mod DeviceIndex
pub mod Decimal
pub mod Telemetry
pub mod Plugins
pub mod Main
pub mod Shutdown
