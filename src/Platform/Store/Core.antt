-- ===== src/Platform/Store/Core.antt =====
-- The part of InMemoryPlatformStore that runs live in, and how each method changes it.
pub mod Quiet
pub mod Steps
pub mod Runs
