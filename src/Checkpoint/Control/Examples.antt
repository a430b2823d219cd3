-- ===== src/Checkpoint/Control/Examples.antt =====
-- Runs of the control of checkpoints, and the theorems about it at these inputs.
use platform_system_vold.Base.{
  ◌≡◌, refl, ◌⊎◌, ◌<◌, Bool, true, false, not, ◌||◌, ◌==◌, List, [], ◌∷◌, Option, none, some, arith,
  leb, all, Text, codes, text_eq, if◌then◌else◌, pos, negsuc, to_string, read_ℤ, read_ℤ-to_string,
}
use platform_system_vold.Checkpoint.Control.Types.{
  einval, last_errno, done, failed, FstabEntry, Mount, BootControl, Env, Cp, booted, rebooted,
}
use platform_system_vold.Checkpoint.Control.Counter.{
  supports_checkpoint, start_checkpoint, needs_checkpoint, needs_rollback, abort_changes,
}
use platform_system_vold.Checkpoint.Control.Commit.{
  commit_changes, walk_all, walk_mounts, commit_entry, mark_slot, set_bow_state, finish_commit,
}
use platform_system_vold.Checkpoint.Control.Prepare.{FreeSpace, free_bytes}
use platform_system_vold.Checkpoint.Control.Order.{
  starts_work, deferred_work_after_commit, commit_changes_error,
}
use platform_system_vold.Checkpoint.Control.Complete.{is_committed, commit_changes_complete}
use platform_system_vold.Checkpoint.Control.Retries.{
  IsHealthy, boots, retries_until_rollback, abort_changes_rollback,
}
use platform_system_vold.Checkpoint.Control.Slots.{slot_never_rolls_back}

abbrev slot_a : BootControl
slot_a = record {
  current_suffix = codes "_a";
  slot_marked_successful = some true;
  marks_boot_successful = true;
}

abbrev data_entry : FstabEntry
data_entry = record { checkpoint_blk = false; checkpoint_fs = true; entry_fs_type = codes "f2fs" }

abbrev block_entry : FstabEntry
block_entry = record { checkpoint_blk = true; checkpoint_fs = false; entry_fs_type = codes "ext4" }

abbrev data_mount : Mount
data_mount = record {
  blk_device = codes "/dev/block/dm-1";
  mount_point = codes "/data";
  fs_type = codes "f2fs";
  fs_options = codes "rw";
}

abbrev other_mount : Mount
other_mount = record {
  blk_device = codes "/dev/block/dm-2";
  mount_point = codes "/other";
  fs_type = codes "ext4";
  fs_options = codes "rw";
}

abbrev entry_for : Text → Option FstabEntry
entry_for point =
    if text_eq point (codes "/data")
    then some data_entry
    else if text_eq point (codes "/other")
    then some block_entry
    else none

-- A device on which all goes well, but for the removal of the file, which may fail.
abbrev device : Bool → Env
device removes = record {
  boot_control = some slot_a;
  dont_commit = false;
  fstab = data_entry ∷ block_entry ∷ [];
  mounts = some (data_mount ∷ other_mount ∷ []);
  entry_of = λ point type. entry_for point;
  entry_at = entry_for;
  remounts = λ point options. true;
  bow_device = λ block_device. codes "/sys/block/dm-3";
  writes_bow_state = λ bow_device state. true;
  opens = λ point. true;
  trims = λ point. true;
  can_read = true;
  can_write = true;
  can_remove = removes;
  after_failed_write = λ old content. old;
  parse_int = read_ℤ;
}

device-IsHealthy : IsHealthy (device true)
device-IsHealthy = record { reads = refl; writes = refl; reads_back = λ z fits. read_ℤ-to_string z }

supported : supports_checkpoint (device true) ≡ true
unfolding supports_checkpoint
supported = refl

-- Three boots are left and the process has been told that it is checkpointing.
abbrev counting : Cp
counting = record {
  file = some (to_string (pos 3));
  is_checkpointing = true;
  is_bow = true;
  needs_checkpoint_was_called = true;
}

commits : (commit_changes (device true) counting).status ≡ done
unfolding commit_changes walk_all walk_mounts commit_entry mark_slot set_bow_state finish_commit
commits = refl

works : starts_work (commit_changes (device true) counting).effects ≡ true
unfolding commit_changes walk_all walk_mounts commit_entry mark_slot set_bow_state finish_commit
works = refl

keeps_file : (commit_changes (device false) counting).status ≡ failed last_errno
unfolding commit_changes walk_all walk_mounts commit_entry mark_slot set_bow_state finish_commit
keeps_file = refl

needed : (needs_checkpoint (device true) counting).0 ≡ true
unfolding needs_checkpoint
needed = refl

retries_until_rollback_example :
    ((start_checkpoint (device true) (pos 2) (booted none)).0 ≡ done)
    × (needs_rollback
          (device true)
          (boots (device true) 3 (start_checkpoint (device true) (pos 2) (booted none)).1)
        ≡ leb 3 3)
retries_until_rollback_example =
    retries_until_rollback (device true) 2 3 (booted none) device-IsHealthy supported (omega arith)

abort_changes_rollback_example :
    ((abort_changes (device true) (codes "test") false counting).1 ≡ rebooted (codes "test") ∷ [])
    × (needs_rollback (device true) (abort_changes (device true) (codes "test") false counting).0
        ≡ (not false || 3 == 0))
abort_changes_rollback_example =
    abort_changes_rollback (device true) 3 counting (codes "test") false device-IsHealthy
      (omega arith) refl needed

slot_never_rolls_back_example :
    ((start_checkpoint (device true) (negsuc 0) (booted none)).0 ≡ done)
    × (needs_rollback
          (device true)
          (boots (device true) 5 (start_checkpoint (device true) (negsuc 0) (booted none)).1)
        ≡ false)
slot_never_rolls_back_example =
    slot_never_rolls_back (device true) (device true) slot_a b'_' (codes "a") 5 (booted none)
      device-IsHealthy device-IsHealthy supported refl refl

deferred_work_after_commit_example :
    ((commit_changes (device true) counting).status ≡ done)
    × (counting.is_checkpointing ≡ true)
    × ((commit_changes (device true) counting).state.is_checkpointing ≡ false)
    × ((commit_changes (device true) counting).state.file ≡ none)
deferred_work_after_commit_example = deferred_work_after_commit (device true) counting works

commit_changes_error_example :
    ((last_errno ≡ einval) × ((commit_changes (device false) counting).state ≡ counting))
    ⊎ ((last_errno ≡ last_errno)
        × ((commit_changes (device false) counting).state
            ≡ record counting { is_checkpointing = false }))
commit_changes_error_example = commit_changes_error (device false) counting last_errno keeps_file

commit_changes_complete_example :
    (ms : List Mount) × ((device true).mounts ≡ some ms)
    × (all (is_committed (device true) true (commit_changes (device true) counting).effects) ms
        ≡ true)
    × (starts_work (commit_changes (device true) counting).effects ≡ true)
    × ((commit_changes (device true) counting).state
        ≡ record counting { is_checkpointing = false; file = none })
commit_changes_complete_example = commit_changes_complete (device true) counting refl refl commits

abbrev little : FreeSpace
little = record { f_bavail = 10; f_frsize = 4096; bow_free = none }

low : free_bytes true little < 104857600
unfolding free_bytes
low = omega arith
