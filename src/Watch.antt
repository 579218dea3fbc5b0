-- ===== src/Watch.antt =====
-- internal/watch: the roll-up of what a target's resyncs retained.
pub mod Retention
pub mod Latest
mod Tests
