-- ===== src/Tests.antt =====
-- The theorems at concrete inputs.
mod Plugin
mod Crc32
mod Appframework
mod Server
mod Userlib
mod Kernel
mod Firmware
mod Rpc
mod Wire
mod FirmwareSim
