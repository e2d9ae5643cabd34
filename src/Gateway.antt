-- ===== src/Gateway.antt =====
-- src/gateway: the one path to the documents. Identity says who calls, Policy what the caller may do,
-- Documents what a permitted call does.
pub mod Denial
pub mod Identity
pub mod Policy
pub mod Documents
pub mod Incidental
pub mod Tests
