-- ===== src/Checkpoint/Restore.antt =====
-- Checkpoint.cpp: `cp_restoreCheckpoint`, which validates the log of a block checkpoint and replays
-- it. The device is its bytes.
pub mod Layout
pub mod Reading
pub mod Replaying
pub mod Passes
pub mod ReadOnly
pub mod Verdict
pub mod Blocks
mod Examples
