-- ===== src/Identity.antt =====
-- The identity service (apps/identity-svc).
pub mod Errors
pub mod Authorization
pub mod Roles
pub mod Accounts
mod Tests
