-- ===== src/Git.antt =====
-- internal/git: the render fidelity gate, the open window and the event loop of a branch worker.
pub mod Gate
pub mod Reduction
pub mod Reports
pub mod Epoch
pub mod Model
pub mod Window
pub mod Pending
pub mod Commit
pub mod Push
pub mod Worker
pub mod Requests
pub mod Resyncs
pub mod Loop
pub mod Ledger
pub mod Frames
pub mod Accounts
pub mod Walk
pub mod Balance
pub mod Replies
pub mod Outcomes
pub mod Closing
pub mod Timers
pub mod Cooldown
mod Tests
