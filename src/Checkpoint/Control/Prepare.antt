-- ===== src/Checkpoint/Control/Prepare.antt =====
-- Checkpoint.cpp: `cp_prepareCheckpoint`, which starts a daemon for each file system that takes part,
-- and the rounds of `cp_healthDaemon`.
use platform_system_vold.Base.{
  ℕ, ◌*◌, ◌%◌, ◌^◌, Bool, true, false, not, ◌&&◌, ◌||◌, List, [], ◌∷◌, ◌++◌, Option, none, some,
  if◌then◌else◌, ltb, codes,
}
use platform_system_vold.Checkpoint.Control.Types.{
  einval, done, failed, FstabEntry, Mount, Env, Cp, Effect, bow_state_set, trimmed,
  health_daemon_started,
}
use platform_system_vold.Checkpoint.Control.Counter.{abort_changes}
use platform_system_vold.Checkpoint.Control.Commit.{set_bow_state, CpOutcome, stop, commit_changes}

abbrev pub start_daemon : Mount → FstabEntry → List Effect
start_daemon m e =
    if e.checkpoint_blk || e.checkpoint_fs
    then health_daemon_started m.mount_point m.blk_device e.checkpoint_fs ∷ []
    else []

-- A block checkpoint: trim first, then arm the device. `none` is a `continue`.
unfoldable pub arm : Env → Mount → Option (Bool × List Effect)
arm env m =
    let armed = set_bow_state env m.blk_device (codes "1") in
    let set = if armed then bow_state_set m.blk_device (codes "1") ∷ [] else [] in
    if not (env.opens m.mount_point)
    then none
    else if not (env.trims m.mount_point)
    then none
    else some (armed, trimmed m.mount_point ∷ set)

-- One mount: the new `isBow` and what was done.
unfoldable pub prepare_entry : Env → Bool → Mount → Option FstabEntry → Bool × List Effect
prepare_entry env is_bow m none = (is_bow, [])
prepare_entry env is_bow m (some e) =
    if e.checkpoint_blk
    then elim (arm env m) [
      | none ↦ (is_bow, [])
      | some a ↦ (is_bow && a.0, a.1 ++ start_daemon m e)
    ]
    else (is_bow, start_daemon m e)

unfoldable pub prepare_mounts : Env → Bool → List Mount → Bool × List Effect
prepare_mounts env is_bow [] = (is_bow, [])
prepare_mounts env is_bow (m ∷ ms) =
    let first = prepare_entry env is_bow m (env.entry_at m.mount_point) in
    let rest = prepare_mounts env first.0 ms in (rest.0, first.1 ++ rest.1)

unfoldable pub prepare_all : Env → Cp → Option (List Mount) → CpOutcome
prepare_all env cp none = stop (failed einval) cp []
prepare_all env cp (some ms) =
    let (is_bow, es) = prepare_mounts env cp.is_bow ms in
    stop done (record cp { is_bow = is_bow }) es

unfoldable pub prepare_checkpoint : Env → Cp → CpOutcome
prepare_checkpoint env cp =
    if not cp.is_checkpointing then stop done cp [] else prepare_all env cp env.mounts

-- What one round of the daemon reads: `f_bavail` and `f_frsize`, or the number in `/bow/free`.
pub record FreeSpace : Type 0 where
  pub f_bavail : ℕ
  pub f_frsize : ℕ
  pub bow_free : Option ℕ

unfoldable pub free_bytes : Bool → FreeSpace → ℕ
free_bytes true s = s.f_bavail * s.f_frsize % 2 ^ 64
free_bytes false s = elim s.bow_free [ none ↦ 0 | some n ↦ n ]

-- One round: whether the loop goes on, the state and what was done.
unfoldable pub health_round :
    Env
    → (min_free_bytes : ℕ) → (commit_on_full is_fs_cp : Bool) → FreeSpace
    → Cp
    → Bool × (Cp × List Effect)
health_round env min_free_bytes commit_on_full is_fs_cp space cp =
    let committed = commit_changes env cp in
    let aborted = abort_changes env (codes "checkpoint,low_space") false cp in
    if not cp.is_checkpointing
    then (false, (cp, []))
    else if ltb (free_bytes is_fs_cp space) min_free_bytes
    then if commit_on_full then (false, (committed.state, committed.effects)) else (false, aborted)
    else (true, (cp, []))
