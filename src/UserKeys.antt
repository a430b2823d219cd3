-- ===== src/UserKeys.antt =====
-- FsCrypt.cpp: the keys of users' credential-encrypted storage, their paths and their fixation.
pub mod Paths
pub mod Newest
pub mod Fixation
pub mod Away
pub mod Kept
pub mod Users
pub mod Protection
pub mod Deferral
pub mod Examples
