-- ===== src/Kernel.antt =====
-- kernel/drivers/deepspan: the Linux driver.
pub mod Shash
pub mod Request
pub mod Vqueue
pub mod Unwind
pub mod Drain
pub mod Tally
pub mod Invariant
pub mod Exact
pub mod Taken
pub mod Probe
pub mod Lifetime
pub mod Rx
pub mod Remove
pub mod Response
pub mod Wire
pub mod Crypto
