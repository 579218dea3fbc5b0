-- ===== src/Typeset.antt =====
-- internal/typeset: which resource types are followed, and which of them are materialized.
pub mod Model
pub mod Funnel
pub mod Lifecycle
pub mod Registry
pub mod Sync
pub mod Materializer
mod Tests
