-- ===== src/Anchor.antt =====
-- The Anchor contract (the-anchor/src) and its record types (chronos-types/src/lib.rs).
pub mod Types
pub mod Errors
pub mod Host
pub mod Env
pub mod Events
pub mod Registry
pub mod Slashing
pub mod Tasks
pub mod Execution
pub mod Contract
pub mod Calls
pub mod Entry
pub mod System
pub mod Samples
pub mod History
mod Tests
mod SystemTests
mod Scenarios
