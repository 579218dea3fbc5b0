-- ===== src/Facts.antt =====
-- internal/queue/fact_index_store.go and fact_index.go: the author facts of one audit route and one
-- resource, with their filing, their lookups, their TTL sweep and their eviction.
pub mod Model
pub mod Store
pub mod Sweeps
pub mod Counts
pub mod Steps
pub mod Lookup
pub mod Filing
pub mod Tiers
mod Tests
