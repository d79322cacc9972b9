-- ===== src/Tests.antt =====
-- The theorems at concrete inputs.
pub mod Samples
pub mod Rules
pub mod Orders
pub mod Outside
pub mod Daemon
pub mod Edges
pub mod Database
pub mod Connected
pub mod Reached
pub mod Ports
pub mod Quiet
pub mod Poisoned
