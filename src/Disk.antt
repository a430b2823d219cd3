-- ===== src/Disk.antt =====
-- model/Disk.cpp: what a disk is by its device number and its files in sysfs, and the scan of its
-- partition table.
pub mod Majors
pub mod Partitions
pub mod Agreement
pub mod Volumes
pub mod Scans
pub mod Fallback
mod Examples
