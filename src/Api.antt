-- ===== src/Api.antt =====
-- src/api: the handlers of the buyers' requests.
pub mod Auth
pub mod Http
pub mod Gates
pub mod License
mod Tests
