-- ===== src/Payment.antt =====
-- The payment module (src/app/payment).
pub mod Model
pub mod Repository
pub mod Session
pub mod Webhook
