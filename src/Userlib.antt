-- ===== src/Userlib.antt =====
-- runtime/userlib/: the handle on a device and the asynchronous client on it.
pub mod Device
pub mod Sync
pub mod AsyncClient
pub mod Handles
pub mod Moves
