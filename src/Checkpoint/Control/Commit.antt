-- ===== src/Checkpoint/Control/Commit.antt =====
-- Checkpoint.cpp: `cp_commitChanges` with the walk over the mounted file systems, and `setBowState`.
use platform_system_vold.Base.{
  Bool, true, false, not, ◌&&◌, List, [], ◌∷◌, ◌++◌, Option, none, some, if◌then◌else◌, Text, codes,
  text_eq,
}
use platform_system_vold.Checkpoint.Control.Types.{
  einval, last_errno, CpStatus, done, failed, is_done, FstabEntry, Mount, BootControl, Env, Cp,
  Effect, marked_boot_successful, property_set, remounted, bow_state_set, committed_work_started,
}

-- `setBowState`: the device is found and takes the state.
abbrev pub is_empty : Text → Bool
is_empty [] = true
is_empty (c ∷ s) = false

unfoldable pub set_bow_state : Env → (block_device state : Text) → Bool
set_bow_state env block_device state =
    let device = env.bow_device block_device in
    not (is_empty device) && env.writes_bow_state device state

-- What a step returns: the status, and what it did.
abbrev pub Step : Type 0
Step = CpStatus × List Effect

-- A step that does one thing or fails with `EINVAL`.
abbrev pub attempt : Bool → Effect → Step
attempt b e = if b then (done, e ∷ []) else (failed einval, [])

abbrev pub enable_options : Mount → Text
enable_options m = m.fs_options ++ codes ",checkpoint=enable"

unfoldable pub commit_entry : Env → Bool → Mount → Option FstabEntry → Step
commit_entry env is_bow m none = (done, [])
commit_entry env is_bow m (some e) =
    if e.checkpoint_fs
    then if text_eq e.entry_fs_type (codes "f2fs")
      then attempt (env.remounts m.mount_point (enable_options m))
          (remounted m.mount_point (enable_options m))
      else (done, [])
    else if e.checkpoint_blk && is_bow
    then attempt (set_bow_state env m.blk_device (codes "2"))
        (bow_state_set m.blk_device (codes "2"))
    else (done, [])

abbrev pub commit_mount : Env → Bool → Mount → Step
commit_mount env is_bow m = commit_entry env is_bow m (env.entry_of m.mount_point m.fs_type)

-- The second step follows unless the first fails.
abbrev pub and_then : Step → Step → Step
and_then first next = if is_done first.0 then (next.0, first.1 ++ next.1) else first

unfoldable pub walk_mounts : Env → Bool → List Mount → Step
walk_mounts env is_bow [] = (done, [])
walk_mounts env is_bow (m ∷ ms) = and_then (commit_mount env is_bow m) (walk_mounts env is_bow ms)

unfoldable pub walk_all : Env → Bool → Option (List Mount) → Step
walk_all env is_bow none = (failed einval, [])
walk_all env is_bow (some ms) = walk_mounts env is_bow ms

unfoldable pub mark_slot : Option BootControl → Step
mark_slot none = (done, [])
mark_slot (some b) =
    if b.marks_boot_successful
    then (done, marked_boot_successful ∷ property_set (codes "ota.warm_reset") (codes "0") ∷ [])
    else (failed einval, [])

-- What a call returns: the status, the state and what it did.
pub record CpOutcome : Type 0 where
  pub status : CpStatus
  pub state : Cp
  pub effects : List Effect

abbrev pub stop : CpStatus → Cp → List Effect → CpOutcome
stop st cp es = record { status = st; state = cp; effects = es }

-- The end of a commit: the flag and then the file are cleared, and the deferred work starts.
unfoldable pub finish_commit : Env → Cp → List Effect → CpOutcome
finish_commit env cp es =
    let told = es ++ (property_set (codes "vold.checkpoint_committed") (codes "1") ∷ []) in
    if env.can_remove
    then stop done (record cp { is_checkpointing = false; file = none })
        (told ++ (committed_work_started ∷ []))
    else stop (failed last_errno) (record cp { is_checkpointing = false }) told

unfoldable pub commit_changes : Env → Cp → CpOutcome
commit_changes env cp =
    let (st, es) = and_then (mark_slot env.boot_control) (walk_all env cp.is_bow env.mounts) in
    if not cp.is_checkpointing
    then stop done cp []
    else if env.dont_commit
    then stop done cp []
    else if is_done st
    then finish_commit env cp es
    else stop st cp es
