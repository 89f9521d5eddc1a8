-- ===== src/Providers.antt =====
-- Calls of live-data providers: agent/travel_agent/providers.
pub mod Gateway
