-- ===== src/Transaction/Service.antt =====
-- apps/transaction-svc/internal/application/service.go: the handlers of incomes and expenses.
mod Stores
pub mod Texts
pub mod Incomes
pub mod FixedExpenses
pub mod VariableExpenses
pub mod Reads
mod Tests
unfoldable pub use Stores.*
