-- ===== src/Finance.antt =====
-- The finance module (src/app/finance).
pub mod Model
pub mod Repository
pub mod Accounts
pub mod Payout
