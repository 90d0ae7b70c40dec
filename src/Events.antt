-- ===== src/Events.antt =====
-- Outbound events (src/lib/events).
pub mod Model
pub mod Repository
pub mod Drain
pub mod Payloads
