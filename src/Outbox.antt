-- ===== src/Outbox.antt =====
-- The transactional outbox: backend/moyuan_web/v1/outbox.py.
pub mod Repository
pub mod Dispatch
pub mod Calls
pub mod Rows
pub mod Changes
pub mod Delivery
pub mod Drain
pub mod Exclusive
mod Tests
