-- ===== src/Checkpoint.antt =====
-- Checkpoint.cpp: the control of checkpoints, and the log of a block checkpoint, which says where the
-- sectors that were overwritten have been kept. Before the log is replayed it is validated, by reads
-- that are relocated as if the replay had been done, with a checksum of each block; a replay keeps
-- the sectors it has read from.
pub mod SectorMap
pub mod Relocation
pub mod Used
pub mod Crc
pub mod Control
pub mod Restore
mod Examples
