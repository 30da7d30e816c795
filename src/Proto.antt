-- ===== src/Proto.antt =====
-- The protocol package, packages/proto/jarvis_proto: its records and enums.
pub mod Runs
pub mod Messages
pub mod Events
pub mod Tasks
pub mod Settings
