-- ===== src/Checkpoint/Restore/Passes.antt =====
-- Checkpoint.cpp: `cp_restoreCheckpoint`: the loop over the log sectors, the pass that validates and
-- the one that restores, and the way back to the original first block.
use platform_system_vold.Base.{
  ℕ, zero, suc, ◌-◌, ◌/◌, ◌^◌, Bool, true, false, not, ◌&&◌, ◌||◌, [], Option, none, some,
  if◌then◌else◌, ltb, ◌==◌, ℤ,
}
use platform_system_vold.Checkpoint.Relocation.{no_relocations}
use platform_system_vold.Checkpoint.Used.{no_sectors}
use platform_system_vold.Checkpoint.Control.Types.{einval, CpStatus, done, failed}
use platform_system_vold.Checkpoint.Restore.Layout.{
  Bytes, log_entry_bytes, log_sector_bytes, magic_number, partial_restore_magic, LogSector,
  log_sector_of, entry_in, read_bytes, write_bytes,
}
use platform_system_vold.Checkpoint.Restore.Reading.{Got, got, empty, undefined, relocated_read}
use platform_system_vold.Checkpoint.Restore.Replaying.{
  Progress, Run, going, stopped, lost, entry_step,
}

-- The rest of a run follows if it goes on.
abbrev pub then_run : Run → (Progress → Run) → Run
then_run (going p) f = f p
then_run (stopped e p) f = stopped e p
then_run lost f = lost

-- The loop over the entries of a log sector, of which the first `n` are left, from the last on.
-- An entry is read from the buffer when its turn comes.
unfoldable pub entries_loop : Bool → ℤ → LogSector → (n : ℕ) → Progress → Run
entries_loop validating limit ls zero p = going p
entries_loop validating limit ls (suc n) p =
    then_run (entry_step validating limit ls n (entry_in ls.header_size n p.ls_buffer) p)
      (λ q. entries_loop validating limit ls n q)

-- The checks of a log sector against its place in the sequence and the first one read.
unfoldable pub log_sector_valid : Bool → (original_block_size sequence : ℕ) → LogSector → Bool
log_sector_valid validating original_block_size sequence ls =
    (ls.magic == magic_number || (ls.magic == partial_restore_magic && not validating))
    && (ls.block_size == original_block_size
        && (ls.sequence == sequence
            && (not (ltb ls.header_size log_sector_bytes || ltb ls.block_size ls.header_size)
                && not (
                    ltb ls.count 1
                    || ltb ((ls.block_size - ls.header_size) / log_entry_bytes) ls.count))))

abbrev pub with_sector : Bytes → Progress → Progress
with_sector buffer p = record p { ls_buffer = buffer; used_sectors = no_sectors }

abbrev pub sector_read : Bool → ℤ → (original_block_size sequence : ℕ) → Progress → Got → Run
sector_read validating limit original_block_size sequence p undefined = lost
sector_read validating limit original_block_size sequence p empty = stopped einval p
sector_read validating limit original_block_size sequence p (got buffer) =
    let ls = log_sector_of buffer in
    if log_sector_valid validating original_block_size sequence ls
    then entries_loop validating limit ls ls.count (with_sector buffer p)
    else stopped einval p

-- One log sector, read from the first block.
unfoldable pub sector_step : Bool → ℤ → (original_block_size sequence : ℕ) → Progress → Run
sector_step validating limit original_block_size sequence p =
    sector_read validating limit original_block_size sequence p
      (relocated_read p.disk p.relocations validating 0 original_block_size original_block_size)

-- The loop over the log sectors, `n` of them, from the sequence `n - 1` down to 0.
unfoldable pub sectors_loop : Bool → ℤ → (original_block_size n : ℕ) → Progress → Run
sectors_loop validating limit original_block_size zero p = going p
sectors_loop validating limit original_block_size (suc n) p =
    then_run (sector_step validating limit original_block_size n p)
      (λ q. sectors_loop validating limit original_block_size n q)

-- `int sequence = original_ls.sequence`: from 2^31 on it is negative, and there are no rounds.
abbrev pub rounds_of : LogSector → ℕ
rounds_of ls = if ltb ls.sequence (2 ^ 31) then suc ls.sequence else 0

abbrev pub fresh : Bytes → Progress
fresh disk = record {
  disk = disk;
  relocations = no_relocations;
  used_sectors = no_sectors;
  ls_buffer = [];
  restore_count = 0;
}

-- What the function returns and the device it leaves; or its behaviour is undefined.
pub data Restored : Type 0 where
  finished : CpStatus → Bytes → Restored
  unknown : Restored

abbrev pub rolled : Bytes → Got → Restored
rolled disk (got buffer) = finished done (write_bytes 0 buffer disk)
rolled disk empty = finished (failed einval) disk
rolled disk undefined = unknown

-- A validation that failed: the original first block is put back.
unfoldable pub roll_forward : LogSector → Bytes → Restored
roll_forward original disk = rolled disk (
    relocated_read disk no_relocations false original.sector0 original.block_size
      original.block_size)

-- The head of a pass: what is wrong with the first log sector, if anything.
unfoldable pub head_valid : LogSector → Bool
head_valid original =
    (original.magic == partial_restore_magic || original.magic == magic_number)
    && not (ltb original.block_size log_sector_bytes)

-- The end of the pass that restores.
abbrev pub end_restore : Run → Restored
end_restore (going p) = finished done p.disk
end_restore (stopped e p) = finished (failed e) p.disk
end_restore lost = unknown

abbrev pub restore_from : ℤ → Bytes → Option Bytes → Restored
restore_from limit disk none = finished (failed einval) disk
restore_from limit disk (some head) =
    let original = log_sector_of head in
    if head_valid original
    then end_restore
        (sectors_loop false limit original.block_size (rounds_of original) (fresh disk))
    else finished (failed einval) disk

-- The pass that restores.
unfoldable pub restore_pass : ℤ → Bytes → Restored
restore_pass limit disk = restore_from limit disk (read_bytes 0 log_sector_bytes disk)

-- The end of the pass that validates.
abbrev pub end_validation : ℤ → LogSector → Run → Restored
end_validation limit original (going p) = restore_pass limit p.disk
end_validation limit original (stopped e p) = roll_forward original p.disk
end_validation limit original lost = unknown

abbrev pub validate_from : ℤ → Bytes → Option Bytes → Restored
validate_from limit disk none = finished (failed einval) disk
validate_from limit disk (some head) =
    let original = log_sector_of head in
    let validated = sectors_loop true limit original.block_size (rounds_of original) (fresh disk) in
    if not (head_valid original)
    then finished (failed einval) disk
    else if original.magic == partial_restore_magic
    then restore_pass limit disk
    else end_validation limit original validated

-- `cp_restoreCheckpoint` on a device that can be opened: a log that has been restored in part is
-- not validated again.
unfoldable pub restore_checkpoint : (limit : ℤ) → Bytes → Restored
restore_checkpoint limit disk = validate_from limit disk (read_bytes 0 log_sector_bytes disk)
