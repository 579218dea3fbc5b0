-- ===== src/Rules.antt =====
-- internal/rulestore/store.go: the compiled watch rules, how they are stored, and what they match.
pub mod Match
pub mod Store
pub mod Spec
pub mod Histories
pub mod Matching
mod Tests
