-- ===== src/Assignment.antt =====
-- Offers of ready orders to agents, and their acceptance: `src/app/assignment`.
pub mod Config
pub mod Offers
pub mod Claims
