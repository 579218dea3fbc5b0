-- ===== src/Api.antt =====
-- Types of api/v1alpha3.
pub mod Prune
mod Tests
