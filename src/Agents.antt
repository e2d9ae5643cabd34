-- ===== src/Agents.antt =====
-- src/agents: what the agents decide.
pub mod Arbiter
pub mod NoticeDrafter
pub mod Propagator
mod Tests
