-- ===== src/Zik.antt =====
-- c/zax-inspector/zik: a Windows driver that reports and restores kernel tables. The calls of the
-- system are parameters, by their results; a memory that the driver reads is a function from indices
-- or addresses.
pub mod Status
pub mod Image
pub mod Service
pub mod Idt
pub mod Kernel
pub mod Locate
pub mod Dispatch
mod Examples
