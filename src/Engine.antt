-- ===== src/Engine.antt =====
-- The keeper daemon (the-engine/src).
pub mod Errors
pub mod Backoff
pub mod Config
pub mod Rpc
pub mod InFlight
pub mod Poller
pub mod Pipeline
pub mod Discovery
pub mod Health
pub mod Main
pub mod Channel
pub mod Executions
pub mod Loops
mod Build
mod Samples
mod Tests
mod DaemonTests
mod LoopTests
mod UnitTests
