-- ===== src/Keys.antt =====
-- KeyStorage.cpp, Keystore.cpp and KeyUtil.cpp: keys in directories, wrapped by Keystore or by a
-- secret, and their installation in the kernel.
pub mod Act
pub mod World
pub mod Calls
pub mod Upgrades
pub mod Storage
pub mod Keeps
pub mod Operations
pub mod Writes
pub mod Quiet
pub mod Streams
pub mod Sealing
pub mod Contents
pub mod Wrapping
pub mod Stored
pub mod Binding
pub mod Commits
pub mod Rollback
pub mod Atomic
pub mod Pending
pub mod RoundTrip
pub mod Install
pub mod Eviction
pub mod Regeneration
pub mod Device
mod Examples
