-- ===== src/Agent.antt =====
-- The delivery agents (src/app/agent).
pub mod Model
pub mod Repository
pub mod Settlement
pub mod Presence
pub mod Service
