-- ===== src/Checkpoint/Control.antt =====
-- Checkpoint.cpp: the control of checkpoints, from `startCheckpoint` before a reboot to the commit
-- or the abort behind it. The file that counts the retries and the flags of the process are the
-- state; what the rest of the system answers is a parameter, a record `Env`.
pub mod Types
pub mod Counter
pub mod Commit
pub mod Prepare
pub mod Order
pub mod Complete
pub mod Retries
pub mod Health
mod Examples
pub mod Slots
