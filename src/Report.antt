-- ===== src/Report.antt =====
-- The report service (apps/report-svc).
pub mod Errors
pub mod Events
pub mod Monthly
pub mod Categories
pub mod Consumer
pub mod Statements
mod Tests
