-- ===== src/Schema.antt =====
-- The schema package: src/schema/*.py.
pub mod Vocabulary
pub mod Lattice
pub mod Scope
pub mod GrantEvent
pub mod Revocation
pub mod Negotiation
pub mod Iam
pub mod Assertion
mod Tests
