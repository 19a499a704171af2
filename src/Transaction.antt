-- ===== src/Transaction.antt =====
-- The transaction service (apps/transaction-svc).
pub mod Errors
pub mod Types
pub mod Income
pub mod FixedExpense
pub mod VariableExpense
pub mod Service
mod Tests
