-- ===== src/Budget.antt =====
-- The budget service (apps/budget-svc).
pub mod Errors
pub mod Plan
mod Tests
