-- ===== src/A2a/TaskStore.antt =====
-- InMemoryAgentTaskStore of agent/travel_agent/a2a/store.py: its values and state, its methods, and
-- what is proved of them.
pub mod Types
pub mod Methods
pub mod Steps
pub mod Invariant
pub mod Progress
pub mod Fencing
pub mod Dispatch
pub mod Queries
mod Tests
