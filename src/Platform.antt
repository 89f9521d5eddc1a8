-- ===== src/Platform.antt =====
-- backend/moyuan_web/v1: trips, runs and artifacts behind the HTTP routes.
pub mod Models
pub mod Input
pub mod Contracts
pub mod Store
