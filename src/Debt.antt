-- ===== src/Debt.antt =====
-- The debt service (apps/debt-svc).
pub mod Errors
pub mod Account
pub mod Amortization
pub mod Payment
mod Samples
pub mod Tables
pub mod Service
mod Tests
