-- ===== src/Paths.antt =====
-- Slash-separated paths, as the packages `path` and `strings` of Go handle them, and the code that
-- compares the paths of GitTargets and of the writer.
pub mod Clean
pub mod Segments
pub mod Overlap
pub mod Contains
mod Tests
pub mod Identifier
pub mod Files
pub mod Sensitive
