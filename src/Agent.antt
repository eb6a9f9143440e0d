-- ===== src/Agent.antt =====
-- The agent: src/agent.
pub mod Offline
pub mod Trust
