-- ===== src/Tests.antt =====
-- Runs of the model at concrete inputs.
mod Sample
mod Settlement
mod Payments
mod Orders
mod Assignment
mod Outbox
mod Pagination
mod Reads
