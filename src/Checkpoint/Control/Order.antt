-- ===== src/Checkpoint/Control/Order.antt =====
-- What a commit has done when it succeeds, and what it leaves when it fails.
use platform_system_vold.Base.{
  ◌≡◌, ◌⊎◌, refl, Bool, true, false, ◌||◌, List, [], ◌∷◌, ◌++◌, Option, none, some, arith, any,
  codes,
}
use platform_system_vold.Checkpoint.Control.Types.{
  ErrorCode, einval, last_errno, CpStatus, done, failed, FstabEntry, Mount, BootControl, Env, Cp,
  Effect, property_set, committed_work_started,
}
use platform_system_vold.Checkpoint.Control.Commit.{
  Step, commit_entry, commit_mount, and_then, walk_mounts, walk_all, mark_slot, finish_commit,
  commit_changes,
}

abbrev pub is_work : Effect → Bool
is_work committed_work_started = true
is_work _ = false

-- The work that was deferred until the commit is among the effects.
abbrev pub starts_work : List Effect → Bool
starts_work es = any is_work es

pub any-append :
    (p : Effect → Bool) (es fs : List Effect) → any p (es ++ fs) ≡ (any p es || any p fs)
any-append p [] fs = refl
any-append p (e ∷ es) fs = ground (arith, any-append p es fs)

commit_entry_no_work :
    (env : Env) (b : Bool) (m : Mount) (e : Option FstabEntry)
    → starts_work (commit_entry env b m e).1 ≡ false
unfolding commit_entry
commit_entry_no_work env b m none = refl
commit_entry_no_work env b m (some e) = ground arith

and_then_no_work :
    (first next : Step)
    → starts_work first.1 ≡ false
    → starts_work next.1 ≡ false
    → starts_work (and_then first next).1 ≡ false
and_then_no_work first next h k = ground (arith, any-append is_work first.1 next.1)

walk_mounts_no_work :
    (env : Env) (b : Bool) (ms : List Mount) → starts_work (walk_mounts env b ms).1 ≡ false
unfolding walk_mounts
walk_mounts_no_work env b [] = refl
walk_mounts_no_work env b (m ∷ ms) =
    and_then_no_work (commit_mount env b m) (walk_mounts env b ms)
      (commit_entry_no_work env b m (env.entry_of m.mount_point m.fs_type))
      (walk_mounts_no_work env b ms)

walk_all_no_work :
    (env : Env) (b : Bool) (ms : Option (List Mount)) → starts_work (walk_all env b ms).1 ≡ false
unfolding walk_all
walk_all_no_work env b none = refl
walk_all_no_work env b (some ms) = walk_mounts_no_work env b ms

mark_slot_no_work : (b : Option BootControl) → starts_work (mark_slot b).1 ≡ false
unfolding mark_slot
mark_slot_no_work none = refl
mark_slot_no_work (some b) = ground arith

steps_no_work :
    (env : Env) (cp : Cp)
    → starts_work (and_then (mark_slot env.boot_control) (walk_all env cp.is_bow env.mounts)).1
      ≡ false
steps_no_work env cp =
    and_then_no_work (mark_slot env.boot_control) (walk_all env cp.is_bow env.mounts)
      (mark_slot_no_work env.boot_control) (walk_all_no_work env cp.is_bow env.mounts)

-- The deferred work, which deletes keys for good, starts only in a commit that succeeds: the
-- process was checkpointing and no longer is, and the file of the retry count is gone.
pub deferred_work_after_commit :
    (env : Env) (cp : Cp)
    → starts_work (commit_changes env cp).effects ≡ true
    → ((commit_changes env cp).status ≡ done)
      × (cp.is_checkpointing ≡ true)
      × ((commit_changes env cp).state.is_checkpointing ≡ false)
      × ((commit_changes env cp).state.file ≡ none)
unfolding commit_changes finish_commit
deferred_work_after_commit env cp h =
    let es = and_then (mark_slot env.boot_control) (walk_all env cp.is_bow env.mounts) in
    ground (
      arith,
      steps_no_work env cp,
      any-append is_work es.1 (property_set (codes "vold.checkpoint_committed") (codes "1") ∷ []),
    )

-- A step fails with `EINVAL` or not at all.
abbrev FailsEinval : CpStatus → Type 0
FailsEinval st = (e : ErrorCode) → st ≡ failed e → e ≡ einval

commit_entry-FailsEinval :
    (env : Env) (b : Bool) (m : Mount) (e : Option FstabEntry)
    → FailsEinval (commit_entry env b m e).0
unfolding commit_entry
commit_entry-FailsEinval env b m none e h = ground arith
commit_entry-FailsEinval env b m (some f) e h = ground arith

and_then-FailsEinval :
    (first next : Step)
    → FailsEinval first.0
    → FailsEinval next.0
    → FailsEinval (and_then first next).0
and_then-FailsEinval first next h k e eq = ground (arith, h e, k e)

walk_mounts-FailsEinval :
    (env : Env) (b : Bool) (ms : List Mount) → FailsEinval (walk_mounts env b ms).0
unfolding walk_mounts
walk_mounts-FailsEinval env b [] e h = ground arith
walk_mounts-FailsEinval env b (m ∷ ms) e h =
    and_then-FailsEinval (commit_mount env b m) (walk_mounts env b ms)
      (commit_entry-FailsEinval env b m (env.entry_of m.mount_point m.fs_type))
      (walk_mounts-FailsEinval env b ms) e h

walk_all-FailsEinval :
    (env : Env) (b : Bool) (ms : Option (List Mount)) → FailsEinval (walk_all env b ms).0
unfolding walk_all
walk_all-FailsEinval env b none e h = ground arith
walk_all-FailsEinval env b (some ms) e h = walk_mounts-FailsEinval env b ms e h

mark_slot-FailsEinval : (b : Option BootControl) → FailsEinval (mark_slot b).0
unfolding mark_slot
mark_slot-FailsEinval none e h = ground arith
mark_slot-FailsEinval (some b) e h = ground arith

-- A commit that fails before its end, with `EINVAL`, changes neither the flags nor the file, and one
-- that cannot remove the file ends the checkpoint and keeps the file.
pub commit_changes_error :
    (env : Env) (cp : Cp) (e : ErrorCode)
    → (commit_changes env cp).status ≡ failed e
    → ((e ≡ einval) × ((commit_changes env cp).state ≡ cp))
      ⊎ ((e ≡ last_errno)
          × ((commit_changes env cp).state ≡ record cp { is_checkpointing = false }))
unfolding commit_changes finish_commit
commit_changes_error env cp e h = ground (
  arith,
  and_then-FailsEinval (mark_slot env.boot_control) (walk_all env cp.is_bow env.mounts)
      (mark_slot-FailsEinval env.boot_control) (walk_all-FailsEinval env cp.is_bow env.mounts) e,
)
