-- ===== src/A2a.antt =====
-- agent/travel_agent/a2a: durable agent tasks.
pub mod TaskStore
