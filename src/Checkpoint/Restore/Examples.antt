-- ===== src/Checkpoint/Restore/Examples.antt =====
-- Runs of the restore on small devices, and the theorems about it at these inputs.
use platform_system_vold.Base.{
  ℕ, zero, suc, ◌≡◌, refl, true, false, ◌==◌, [], ◌∷◌, ◌++◌, some, drop, pos,
}
use platform_system_vold.Checkpoint.SectorMap.{
  floor, last?, first?, above, below, from, insert_or_assign, insert_all, has_key, erase_range,
}
use platform_system_vold.Checkpoint.Relocation.{
  no_relocations, relocated, relocate, relocate_entries, slice_loop,
}
use platform_system_vold.Checkpoint.Used.{check_collision, mark_used, erase_between}
use platform_system_vold.Checkpoint.Control.Types.{einval, done}
use platform_system_vold.Checkpoint.Restore.Layout.{
  LogSector, LogEntry, Bytes, entry_in, log_entry_of, get_le, put_le, log_sector_of, read_bytes,
  write_bytes, log_sector_bytes, magic_number, partial_restore_magic,
}
use platform_system_vold.Checkpoint.Restore.Reading.{got, checksum_of, relocated_read, read_blocks}
use platform_system_vold.Checkpoint.Restore.Replaying.{
  Progress, going, stopped, entry_step, apply_entry, restore_sector, mark_next, save_position,
}
use platform_system_vold.Checkpoint.Restore.Passes.{
  sectors_loop, sector_step, entries_loop, rounds_of, fresh, finished, roll_forward, head_valid,
  restore_pass, restore_checkpoint, log_sector_valid,
}
use platform_system_vold.Checkpoint.Restore.Verdict.{
  verdict, validation_writes_nothing, failed_validation_first_block,
}

abbrev filled : ℕ → ℕ → Bytes
filled zero b = []
filled (suc n) b = b ∷ filled n b

-- A log sector with blocks of 512 bytes whose count of entries is 0, which is not valid, and whose
-- original is sector 1.
abbrev head : Bytes
head =
    put_le 4 0x00574f42
    ++ (put_le 2 1 ++ (put_le 2 28 ++ (put_le 4 512 ++ (put_le 4 0 ++ (put_le 4 0 ++ put_le 8 1)))))

abbrev disk : Bytes
disk = head ++ (filled 484 0 ++ filled 512 7)

found : read_bytes 0 log_sector_bytes disk ≡ some head
unfolding read_bytes put_le
found = refl

valid : head_valid (log_sector_of head) ≡ true
unfolding head_valid log_sector_of get_le put_le
valid = refl

whole : ((log_sector_of head).magic == partial_restore_magic) ≡ false
unfolding log_sector_of get_le put_le
whole = refl

stops : sectors_loop true (pos 0) 512 1 (fresh disk) ≡ stopped einval (fresh disk)
unfolding sectors_loop sector_step relocated_read read_blocks read_bytes relocated no_relocations
    floor last? log_sector_valid log_sector_of get_le put_le
stops = refl

restored : restore_checkpoint (pos 0) disk ≡ finished done (filled 1024 7)
unfolding restore_checkpoint sectors_loop sector_step relocated_read read_blocks read_bytes
    write_bytes relocated no_relocations floor last? log_sector_valid log_sector_of get_le put_le
    head_valid roll_forward
restored = refl

rounds : rounds_of (log_sector_of head) ≡ 1
unfolding log_sector_of get_le put_le
rounds = refl

validation_writes_nothing_example :
    restore_checkpoint (pos 0) disk
    ≡ verdict (pos 0) (log_sector_of head) disk (
        sectors_loop true
          (pos 0)
          (log_sector_of head).block_size
          (rounds_of (log_sector_of head))
          (fresh disk))
validation_writes_nothing_example = validation_writes_nothing (pos 0) disk head found valid whole

fails :
    sectors_loop true
      (pos 0)
      (log_sector_of head).block_size
      (rounds_of (log_sector_of head))
      (fresh disk)
    ≡ stopped einval (fresh disk)
unfolding log_sector_of get_le put_le
fails = stops

failed_validation_first_block_example :
    drop (log_sector_of head).block_size (filled 1024 7) ≡ drop (log_sector_of head).block_size disk
failed_validation_first_block_example =
    failed_validation_first_block (pos 0) disk (filled 1024 7) head einval (fresh disk) done found
      valid whole fails restored

reads : relocated_read disk no_relocations true 1 512 512 ≡ got (filled 512 7)
unfolding relocated_read read_blocks read_bytes relocated no_relocations floor last? put_le
reads = refl

-- A log of one entry: sector 2 is to be put back from sector 3, and sector 0 from sector 1.
abbrev entry : (source dest : ℕ) → Bytes
entry source dest = put_le 8 source ++ (put_le 8 dest ++ (put_le 4 512 ++ put_le 4 0))

abbrev good_head : Bytes
good_head =
    put_le 4 0x00574f42
    ++ (put_le 2 1 ++ (put_le 2 28 ++ (put_le 4 512 ++ (put_le 4 2 ++ (put_le 4 0 ++ put_le 8 1)))))

abbrev good_disk : Bytes
good_disk =
    good_head
    ++ (entry 0 1
        ++ (entry 2 3 ++ (filled 436 0 ++ (filled 512 7 ++ (filled 512 1 ++ filled 512 9)))))

-- The replay puts both sectors back.
replays :
    restore_checkpoint (pos 0) good_disk
    ≡ finished done (filled 1024 7 ++ (filled 512 9 ++ filled 512 9))
unfolding restore_checkpoint sectors_loop sector_step entries_loop entry_step entry_in log_entry_of
    apply_entry restore_sector mark_next save_position checksum_of relocated_read read_blocks
    read_bytes write_bytes relocate relocate_entries slice_loop relocated no_relocations floor above
    below from insert_or_assign insert_all has_key erase_range first? last? check_collision
    mark_used erase_between log_sector_valid log_sector_of get_le put_le head_valid restore_pass
replays = refl

abbrev good_sector : LogSector
good_sector = record {
  magic = magic_number;
  header_size = 28;
  block_size = 512;
  count = 2;
  sequence = 0;
  sector0 = 1;
}

abbrev second_entry : LogEntry
second_entry = record { source = 2; dest = 3; size = 512; checksum = 0 }

abbrev relocated_once : Progress
relocated_once = record (fresh good_disk) { relocations = (0, 0) ∷ (2, 3) ∷ (3, 3) ∷ [] }

goes_on :
    entry_step true (pos 0) good_sector 1 second_entry (fresh good_disk) ≡ going relocated_once
unfolding entry_step apply_entry checksum_of relocated_read read_blocks read_bytes relocate
    relocate_entries slice_loop relocated no_relocations floor above below from insert_or_assign
    insert_all has_key erase_range first? last? put_le
goes_on = refl
