-- ===== src/Outbox.antt =====
-- The transactional outbox (pkg/outbox), which every service writes its events to.
pub mod Publisher
mod Tests
