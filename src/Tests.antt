-- ===== src/Tests.antt =====
-- Runs at concrete inputs, over a configuration, a system and a cipher that are fixed here.
pub mod Data
pub mod Names
pub mod Messages
pub mod Sessions
pub mod Backends
pub mod Offers
pub mod Runs
pub mod Serving
pub mod Settings
pub mod Processes
pub mod Children
pub mod Consoles
pub mod Lent
