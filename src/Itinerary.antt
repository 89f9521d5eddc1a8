-- ===== src/Itinerary.antt =====
-- Plans of trips, in agent/travel_agent/runtime_v2: how they are built, checked and released.
pub mod Types
pub mod Constraints
pub mod Validate
pub mod Feasible
pub mod Soundness
pub mod Refinement
pub mod Review
pub mod Policy
pub mod Release
pub mod Publishing
pub mod Limits
pub mod Rules
pub mod Filing
pub mod Contract
pub mod Planner
pub mod Schedule
pub mod Build
pub mod Rounds
pub mod Daytime
pub mod Arrival
pub mod Punctual
pub mod Days
pub mod Composition
pub mod Midnight
pub mod Breaks
mod Samples
mod Tests
