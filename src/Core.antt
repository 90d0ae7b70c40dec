-- ===== src/Core.antt =====
-- The core service, as its client sees it (src/lib/core-client).
pub mod Model
pub mod Client
pub mod Permissions
