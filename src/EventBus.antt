-- ===== src/EventBus.antt =====
-- The event bus client of crates/tuta/src/event_bus.rs: what a close frame leads to, how long the
-- client waits before it reconnects, and the loop of `EventBusClient::run`. Seconds and codes are
-- numbers; the clock, the random pick and the socket are inputs of a step.
mod Policy
pub mod Bounds
mod Run
mod Messages
pub mod Encoded
pub mod Trace
pub mod Tests
unfoldable pub use Policy.*
unfoldable pub use Run.*
