-- ===== src/Providers/Gateway.antt =====
-- ProviderGateway of agent/travel_agent/providers/gateway.py.
pub mod Types
pub mod Circuit
pub mod Cache
pub mod Prune
pub mod Calls
pub mod Window
pub mod Quota
pub mod Limit
pub mod Counting
pub mod Breaker
pub mod Probe
pub mod Replay
pub mod Room
pub mod Bounds
pub mod Idempotency
pub mod Keys
pub mod Separation
mod Tests
mod CacheTests
