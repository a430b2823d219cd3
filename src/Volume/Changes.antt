-- ===== src/Volume/Changes.antt =====
-- model/VolumeBase.cpp: the setters and the changes of the list of stacked volumes.
use platform_system_vold.Base.{ℕ, ◌≡◌, Bool, true, Text}
use platform_system_vold.Volume.Types.{mounted, Volume, fields}
use platform_system_vold.Volume.Laws.{IsSound}
use platform_system_vold.Volume.Setters.{
  set_disk_id, set_part_guid, set_mount_flags, set_mount_user_id, set_silent, set_id, set_path,
  set_internal_path, set_mount_callback, add_volume, remove_volume,
}

pub data Change : Type 0 where
  sets_disk_id sets_part_guid sets_id sets_path sets_internal_path removes : Text → Change
  sets_mount_flags sets_mount_user_id sets_mount_callback : ℕ → Change
  sets_silent : Bool → Change
  adds : Volume → Change

-- The volume after the call.
unfoldable pub changed : (has_listener : Bool) → Change → Volume → Volume
changed has_listener (sets_disk_id t) v = (set_disk_id t v).volume
changed has_listener (sets_part_guid t) v = (set_part_guid t v).volume
changed has_listener (sets_id t) v = (set_id t v).volume
changed has_listener (sets_path t) v = (set_path has_listener t v).volume
changed has_listener (sets_internal_path t) v = (set_internal_path has_listener t v).volume
changed has_listener (removes id) v = remove_volume id v
changed has_listener (sets_mount_flags n) v = (set_mount_flags n v).volume
changed has_listener (sets_mount_user_id n) v = (set_mount_user_id n v).volume
changed has_listener (sets_mount_callback n) v = (set_mount_callback n v).volume
changed has_listener (sets_silent b) v = (set_silent b v).volume
changed has_listener (adds w) v = add_volume w v

-- What the callers of `addVolume` see to: a sound and created volume goes on a mounted one.
abbrev pub IsFitting : Change → Volume → Type 0
IsFitting (adds w) v = ((fields v).state ≡ mounted) × ((fields w).created ≡ true) × IsSound w
IsFitting _ v = Unit {0}
