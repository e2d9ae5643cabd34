-- ===== src/Evidence.antt =====
-- The evidence side of the repository: src/evidence.
pub mod RevocationLint
mod Tests
