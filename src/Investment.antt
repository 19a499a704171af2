-- ===== src/Investment.antt =====
-- The investment service (apps/investment-svc).
pub mod Errors
pub mod Holding
pub mod Service
pub mod Transaction
mod Tests
