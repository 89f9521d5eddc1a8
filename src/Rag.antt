-- ===== src/Rag.antt =====
-- Retrieval, in agent/travel_agent/rag.
pub mod Chunker
pub mod Ink
pub mod Windows
pub mod Chunks
pub mod Knowledge
pub mod Applied
pub mod Commands
pub mod Versions
mod Tests
mod CommandTests
