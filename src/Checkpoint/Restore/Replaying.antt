-- ===== src/Checkpoint/Restore/Replaying.antt =====
-- Checkpoint.cpp: `restoreSector`, and what `cp_restoreCheckpoint` does with one log entry.
use platform_system_vold.Base.{
  ℕ, zero, suc, ◌+◌, ◌-◌, ◌/◌, ◌^◌, Bool, true, false, not, ◌&&◌, ◌||◌, Option, none, some,
  if◌then◌else◌, leb, ltb, ◌==◌, ℤ, pos, negsuc, take,
}
use platform_system_vold.Checkpoint.Relocation.{Relocations, relocate, add64}
use platform_system_vold.Checkpoint.Used.{UsedSectors, check_collision, mark_used, no_sectors}
use platform_system_vold.Checkpoint.Control.Types.{ErrorCode, einval, eagain}
use platform_system_vold.Checkpoint.Restore.Layout.{
  Bytes, sector_size, partial_restore_magic, magic_number, LogEntry, LogSector, field, put_le,
  overwrite, write_bytes, seek,
}
use platform_system_vold.Checkpoint.Restore.Reading.{
  Got, got, empty, undefined, relocated_read, checksum_of, byte_offset,
}

-- What the loops of `cp_restoreCheckpoint` change.
pub record Progress : Type 0 where
  pub disk : Bytes
  pub relocations : Relocations
  pub used_sectors : UsedSectors
  pub ls_buffer : Bytes
  pub restore_count : ℕ

-- A step of it: it goes on, it stops with an error, or its behaviour is undefined.
pub data Run : Type 0 where
  going : Progress → Run
  stopped : ErrorCode → Progress → Run
  lost : Run

-- `(size - 1) / kSectorSize + 1`.
abbrev pub sectors_of : ℕ → ℕ
sectors_of size = (size - 1) / sector_size + 1

-- `restoreSector` where there is a collision: the log sector says how far the restore has come.
unfoldable pub save_position : LogSector → (index : ℕ) → Progress → Progress
save_position ls index p =
    let saved =
      overwrite 0 (put_le 4 partial_restore_magic)
        (overwrite 12 (put_le 4 (index + 1)) p.ls_buffer) in
    record p {
      disk = write_bytes 0 (take ls.block_size saved) p.disk;
      ls_buffer = saved;
      used_sectors = no_sectors;
    }

-- The sector that takes the place of the current log sector is marked as partly restored.
unfoldable pub mark_next : LogSector → (index : ℕ) → Bytes → Bytes
mark_next ls index buffer =
    if (index == 0 && not (ls.sequence == 0)) && field 0 4 buffer == magic_number
    then overwrite 0 (put_le 4 partial_restore_magic) buffer
    else buffer

abbrev pub use_sectors : Progress → Option UsedSectors → Option Progress
use_sectors p none = none
use_sectors p (some used) = some (record p { used_sectors = used })

-- Where the file stands before the last seek: behind the saved log sector or behind the read.
abbrev pub position_of : LogSector → LogEntry → Option Bool → ℕ
position_of ls le (some true) = ls.block_size
position_of ls le _ = byte_offset le.dest + le.size

abbrev pub write_sector :
    LogSector → (index : ℕ) → LogEntry → Bytes → (position : ℕ) → Option Progress → Run
write_sector ls index le buffer position none = lost
write_sector ls index le buffer position (some p) = going (record p {
  disk =
      write_bytes (seek position (byte_offset le.source) p.disk) (mark_next ls index buffer) p.disk;
  restore_count = suc p.restore_count;
})

abbrev pub collided : LogSector → (index : ℕ) → Progress → Option Bool → Option Progress
collided ls index p none = none
collided ls index p (some true) = some (save_position ls index p)
collided ls index p (some false) = some p

abbrev pub mark_dest : LogEntry → Option Progress → Option Progress
mark_dest le none = none
mark_dest le (some p) =
    use_sectors p (mark_used p.used_sectors le.dest (add64 le.dest (sectors_of le.size)))

unfoldable pub restore_sector : LogSector → (index : ℕ) → LogEntry → Bytes → Progress → Run
restore_sector ls index le buffer p =
    let collision =
      check_collision p.used_sectors le.source (add64 le.source (sectors_of le.size)) in
    write_sector ls index le buffer (position_of ls le collision)
      (mark_dest le (collided ls index p collision))

-- `restore_limit && restore_count >= restore_limit`.
abbrev pub hits_limit : ℤ → ℕ → Bool
hits_limit (pos zero) n = false
hits_limit (pos (suc m)) n = leb (suc m) n
hits_limit (negsuc m) n = true

abbrev pub limited : ℤ → Run → Run
limited limit (going p) = if hits_limit limit p.restore_count then stopped eagain p else going p
limited limit (stopped e p) = stopped e p
limited limit lost = lost

abbrev pub relocate_to : Progress → Option Relocations → Run
relocate_to p none = lost
relocate_to p (some m) = going (record p { relocations = m })

-- An entry whose checksum agrees.
unfoldable pub apply_entry :
    (validating : Bool) → (limit : ℤ) → LogSector → (index : ℕ) → LogEntry → Bytes → Progress → Run
apply_entry true limit ls index le buffer p =
    relocate_to p (relocate p.relocations le.source le.dest (sectors_of le.size))
apply_entry false limit ls index le buffer p = limited limit (restore_sector ls index le buffer p)

abbrev pub checked_entry : Bool → ℤ → LogSector → ℕ → LogEntry → Bytes → Progress → Option ℕ → Run
checked_entry validating limit ls index le buffer p none = lost
checked_entry validating limit ls index le buffer p (some sum) =
    if not (le.checksum == 0) && not (sum == le.checksum)
    then stopped einval p
    else apply_entry validating limit ls index le buffer p

abbrev pub read_entry : Bool → ℤ → LogSector → ℕ → LogEntry → Progress → Got → Run
read_entry validating limit ls index le p undefined = lost
read_entry validating limit ls index le p empty = stopped einval p
read_entry validating limit ls index le p (got buffer) =
    checked_entry validating limit ls index le buffer p (checksum_of le ls.block_size buffer)

-- One round of the loop over the entries.
unfoldable pub entry_step : Bool → ℤ → LogSector → ℕ → LogEntry → Progress → Run
entry_step validating limit ls index le p =
    if ltb (2 ^ 32 - 1 - le.size) ls.block_size || ltb le.size ls.block_size
    then stopped einval p
    else read_entry validating limit ls index le p
        (relocated_read p.disk p.relocations validating le.dest le.size ls.block_size)
