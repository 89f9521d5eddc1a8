-- ===== src/Platform/Store.antt =====
-- InMemoryPlatformStore of backend/moyuan_web/v1/store.py.
pub mod State
pub mod Trips
pub mod Leases
pub mod Runs
pub mod Mutation
pub mod Resume
pub mod Artifacts
pub mod Commands
pub mod Core
pub mod History
pub mod Invariant
pub mod Progress
pub mod Inversion
pub mod Fencing
pub mod Superseding
pub mod Publication
pub mod Access
pub mod Keying
pub mod Barring
pub mod Tenancy
pub mod Torn
pub mod Retry
pub mod Editing
pub mod Resumption
mod Tests
mod Scenarios
mod ResumeTests
