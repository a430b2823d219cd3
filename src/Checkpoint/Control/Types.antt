-- ===== src/Checkpoint/Control/Types.antt =====
-- Checkpoint.cpp: the flags of the process, the fstab entries that it reads, its results, what it
-- asks of the rest of the system and what it has done there.
use platform_system_vold.Base.{Bool, true, false, List, Option, Text, ℤ}

-- The code of a service-specific error. `last_errno` is what `errno` held.
pub data ErrorCode : Type 0 where
  enotsup einval eagain last_errno : ErrorCode

pub data CpStatus : Type 0 where
  done : CpStatus
  failed : ErrorCode → CpStatus

abbrev pub is_done : CpStatus → Bool
is_done done = true
is_done (failed e) = false

-- An entry of the default fstab.
pub record FstabEntry : Type 0 where
  pub checkpoint_blk : Bool
  pub checkpoint_fs : Bool
  pub entry_fs_type : Text

-- An entry of /proc/mounts.
pub record Mount : Type 0 where
  pub blk_device : Text
  pub mount_point : Text
  pub fs_type : Text
  pub fs_options : Text

-- The boot control service.
pub record BootControl : Type 0 where
  pub current_suffix : Text
  pub slot_marked_successful : Option Bool
  pub marks_boot_successful : Bool

-- What the rest of the system answers. A write that fails leaves what `after_failed_write` says.
pub record Env : Type 0 where
  pub boot_control : Option BootControl
  pub dont_commit : Bool
  pub fstab : List FstabEntry
  pub mounts : Option (List Mount)
  pub entry_of : (mount_point fs_type : Text) → Option FstabEntry
  pub entry_at : (mount_point : Text) → Option FstabEntry
  pub remounts : (mount_point options : Text) → Bool
  pub bow_device : (block_device : Text) → Text
  pub writes_bow_state : (bow_device state : Text) → Bool
  pub opens : (mount_point : Text) → Bool
  pub trims : (mount_point : Text) → Bool
  pub can_read : Bool
  pub can_write : Bool
  pub can_remove : Bool
  pub after_failed_write : Option Text → Text → Option Text
  pub parse_int : Text → Option ℤ

-- The file at `kMetadataCPFile` and the flags of the process.
pub record Cp : Type 0 where
  pub file : Option Text
  pub is_checkpointing : Bool
  pub is_bow : Bool
  pub needs_checkpoint_was_called : Bool

-- The flags as a process starts with them.
abbrev pub booted : Option Text → Cp
booted content = record {
  file = content;
  is_checkpointing = false;
  is_bow = true;
  needs_checkpoint_was_called = false;
}

-- What has been done to the rest of the system.
pub data Effect : Type 0 where
  marked_boot_successful : Effect
  property_set : (name value : Text) → Effect
  remounted : (mount_point options : Text) → Effect
  bow_state_set : (block_device state : Text) → Effect
  trimmed : (mount_point : Text) → Effect
  health_daemon_started : (mount_point block_device : Text) → (is_fs_cp : Bool) → Effect
  committed_work_started : Effect
  rebooted : (message : Text) → Effect
