-- ===== src/Order.antt =====
-- The order module (src/app/order).
pub mod Model
pub mod Status
pub mod Repository
pub mod Access
pub mod Responses
pub mod Queries
pub mod Read
pub mod Lines
pub mod Update
pub mod Place
