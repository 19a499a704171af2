-- ===== src/CreditCard.antt =====
-- The credit card service (apps/creditcard-svc).
pub mod Errors
pub mod Month
pub mod Purchase
pub mod Card
pub mod Invoice
pub mod Tables
pub mod PayInvoice
pub mod AddTransaction
pub mod Samples
mod Tests
