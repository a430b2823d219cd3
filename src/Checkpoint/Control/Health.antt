-- ===== src/Checkpoint/Control/Health.antt =====
-- What the preparation of a checkpoint and the daemon that watches its space come to.
use platform_system_vold.Base.{
  ℕ, ◌≡◌, Bool, true, false, not, ◌&&◌, ◌||◌, List, [], ◌∷◌, Option, none, some, arith, all, codes,
  lt→ltb, ◌<◌, pos, to_string,
}
use platform_system_vold.Checkpoint.Control.Types.{done, FstabEntry, Mount, Env, Cp, rebooted}
use platform_system_vold.Checkpoint.Control.Counter.{needs_checkpoint, first_answer, needs_rollback}
use platform_system_vold.Checkpoint.Control.Commit.{set_bow_state}
use platform_system_vold.Checkpoint.Control.Prepare.{
  arm, prepare_entry, prepare_mounts, prepare_all, prepare_checkpoint, FreeSpace, free_bytes,
  health_round,
}
use platform_system_vold.Checkpoint.Control.Counter.{int_max}
use platform_system_vold.Base.{◌≤◌}
use platform_system_vold.Checkpoint.Control.Retries.{IsHealthy, abort_changes_rollback}

-- Nothing stands against a block checkpoint of the mount: it takes no part, it could not be
-- trimmed, or its device has been armed.
abbrev pub holds_for : Env → Mount → Option FstabEntry → Bool
holds_for env m none = true
holds_for env m (some e) =
    not (e.checkpoint_blk && (env.opens m.mount_point && env.trims m.mount_point))
    || set_bow_state env m.blk_device (codes "1")

abbrev pub is_armed : Env → Mount → Bool
is_armed env m = holds_for env m (env.entry_at m.mount_point)

prepare_entry_bow :
    (env : Env) (b : Bool) (m : Mount) (e : Option FstabEntry)
    → (prepare_entry env b m e).0 ≡ (b && holds_for env m e)
unfolding prepare_entry arm
prepare_entry_bow env b m none = ground arith
prepare_entry_bow env b m (some e) = ground arith

prepare_mounts_bow :
    (env : Env) (b : Bool) (ms : List Mount)
    → (prepare_mounts env b ms).0 ≡ (b && all (is_armed env) ms)
unfolding prepare_mounts
prepare_mounts_bow env b [] = ground arith
prepare_mounts_bow env b (m ∷ ms) =
    let first = (prepare_entry env b m (env.entry_at m.mount_point)).0 in
    ground (
      arith,
      prepare_mounts_bow env first ms,
      prepare_entry_bow env b m (env.entry_at m.mount_point),
    )

-- `cp_prepareCheckpoint` while checkpointing, with the mounts read, succeeds and changes the flag
-- `isBow` only: it is true afterwards exactly if it was and every mount whose block checkpoint
-- could be trimmed has had its device armed.
pub prepare_checkpoint_bow :
    (env : Env) (cp : Cp) (ms : List Mount)
    → cp.is_checkpointing ≡ true
    → env.mounts ≡ some ms
    → ((prepare_checkpoint env cp).status ≡ done)
      × ((prepare_checkpoint env cp).state
          ≡ record cp { is_bow = cp.is_bow && all (is_armed env) ms })
unfolding prepare_checkpoint prepare_all
prepare_checkpoint_bow env cp ms c found = ground (arith, prepare_mounts_bow env cp.is_bow ms)

asked_while_checkpointing :
    (env : Env) (cp : Cp) → cp.is_checkpointing ≡ true → (needs_checkpoint env cp).0 ≡ true
unfolding needs_checkpoint first_answer
asked_while_checkpointing env cp c = ground arith

-- A round of the health daemon that finds little space while checkpointing, with commits for that
-- case switched off, is the last: it reboots, and the next `cp_needsRollback` answers yes.
pub health_round_abort :
    (env : Env) (n min_free_bytes : ℕ) (is_fs_cp : Bool) (space : FreeSpace) (cp : Cp)
    → IsHealthy env
    → n ≤ int_max
    → cp.file ≡ some (to_string (pos n))
    → cp.is_checkpointing ≡ true
    → free_bytes is_fs_cp space < min_free_bytes
    → ((health_round env min_free_bytes false is_fs_cp space cp).0 ≡ false)
      × ((health_round env min_free_bytes false is_fs_cp space cp).1.1
          ≡ rebooted (codes "checkpoint,low_space") ∷ [])
      × (needs_rollback env (health_round env min_free_bytes false is_fs_cp space cp).1.0 ≡ true)
unfolding health_round
health_round_abort env n min_free_bytes is_fs_cp space cp healthy small file c low =
    let (rebooting, rolling) =
      abort_changes_rollback env n cp (codes "checkpoint,low_space") false healthy small file
        (asked_while_checkpointing env cp c) in
    let few = lt→ltb (free_bytes is_fs_cp space) min_free_bytes low in
    (ground (arith, few), ground (arith, few, rebooting), ground (arith, few, rolling))
