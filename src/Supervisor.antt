-- ===== src/Supervisor.antt =====
-- The supervisor package: src/supervisor/*.py.
pub mod Lease
pub mod Bounded
pub mod Quarantine
pub mod Tests
