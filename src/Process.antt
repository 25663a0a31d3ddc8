-- ===== src/Process.antt =====
-- crates/sleepytale/src/infra/process.rs: the child process.
pub mod Scan
pub mod Drain
pub mod Banner
pub mod Child
pub mod Stopping
pub mod Startup
pub mod Booting
