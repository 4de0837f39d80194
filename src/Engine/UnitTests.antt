-- ===== src/Engine/UnitTests.antt =====
-- The unit tests of the-engine/src (in_flight.rs, errors.rs, config.rs), on the model. Each is what
-- its test function asserts.
mod InFlight
mod Errors
mod Config
