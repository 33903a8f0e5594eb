-- ===== src/Automation.antt =====
-- persys-automation: the engine that evaluates policies and suggests actions to the scheduler.
pub mod Records
pub mod Suggestions
pub mod Engine
pub mod Dispatch
pub mod MemoryStore
pub mod Leader
