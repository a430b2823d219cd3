-- ===== src/Checkpoint/Control/Complete.antt =====
-- Which mounted file systems a commit has been through when it succeeds.
use platform_system_vold.Base.{
  ◌≡◌, refl, sym, ◌∙◌, ap, Bool, true, false, not, ◌&&◌, ◌||◌, List, [], ◌∷◌, ◌++◌, Option, none,
  some, arith, any, all, codes, text_eq, text_eq_refl,
}
use mathlib.Core.List.{append-nil, append_assoc}
use platform_system_vold.Checkpoint.Control.Types.{
  done, FstabEntry, Mount, Env, Cp, Effect, property_set, remounted, bow_state_set,
  committed_work_started,
}
use platform_system_vold.Checkpoint.Control.Commit.{
  Step, enable_options, commit_entry, commit_mount, and_then, walk_mounts, walk_all, mark_slot,
  finish_commit, commit_changes,
}
use platform_system_vold.Checkpoint.Control.Order.{any-append, is_work, starts_work}

abbrev pub is_remount_of : Mount → Effect → Bool
is_remount_of m (remounted point options) =
    text_eq point m.mount_point && text_eq options (enable_options m)
is_remount_of m _ = false

abbrev pub is_bow_commit_of : Mount → Effect → Bool
is_bow_commit_of m (bow_state_set device state) =
    text_eq device m.blk_device && text_eq state (codes "2")
is_bow_commit_of m _ = false

-- A mount of the fstab's entry has been committed, if it takes part in checkpoints: an f2fs is
-- mounted again with checkpoints enabled, a block device has been told to give up its log.
abbrev pub committed_as : Bool → List Effect → Mount → Option FstabEntry → Bool
committed_as is_bow es m none = true
committed_as is_bow es m (some e) =
    (not (e.checkpoint_fs && text_eq e.entry_fs_type (codes "f2fs")) || any (is_remount_of m) es)
    && (not (not e.checkpoint_fs && (e.checkpoint_blk && is_bow)) || any (is_bow_commit_of m) es)

abbrev pub is_committed : Env → Bool → List Effect → Mount → Bool
is_committed env is_bow es m = committed_as is_bow es m (env.entry_of m.mount_point m.fs_type)

-- More effects in front or behind leave a mount committed.
committed_as-append :
    (b : Bool) (xs es fs : List Effect) (m : Mount) (e : Option FstabEntry)
    → committed_as b es m e ≡ true
    → committed_as b (xs ++ (es ++ fs)) m e ≡ true
committed_as-append b xs es fs m none h = refl
committed_as-append b xs es fs m (some e) h = ground (
  arith,
  any-append (is_remount_of m) xs (es ++ fs),
  any-append (is_remount_of m) es fs,
  any-append (is_bow_commit_of m) xs (es ++ fs),
  any-append (is_bow_commit_of m) es fs,
)

all_committed-append :
    (env : Env) (b : Bool) (xs es fs : List Effect) (ms : List Mount)
    → all (is_committed env b es) ms ≡ true
    → all (is_committed env b (xs ++ (es ++ fs))) ms ≡ true
all_committed-append env b xs es fs [] h = refl
all_committed-append env b xs es fs (m ∷ ms) h = ground (
  arith,
  committed_as-append b xs es fs m (env.entry_of m.mount_point m.fs_type),
  all_committed-append env b xs es fs ms,
)

commit_entry_committed :
    (env : Env) (b : Bool) (m : Mount) (e : Option FstabEntry)
    → (commit_entry env b m e).0 ≡ done
    → committed_as b (commit_entry env b m e).1 m e ≡ true
unfolding commit_entry
commit_entry_committed env b m none h = refl
commit_entry_committed env b m (some e) h =
    ground (
      arith,
      text_eq_refl m.mount_point,
      text_eq_refl (enable_options m),
      text_eq_refl m.blk_device,
    )

and_then_done :
    (first next : Step)
    → (and_then first next).0 ≡ done
    → (first.0 ≡ done) × (next.0 ≡ done) × ((and_then first next).1 ≡ first.1 ++ next.1)
and_then_done first next h = ground arith

walk_mounts_committed :
    (env : Env) (b : Bool) (ms : List Mount)
    → (walk_mounts env b ms).0 ≡ done
    → all (is_committed env b (walk_mounts env b ms).1) ms ≡ true
unfolding walk_mounts
walk_mounts_committed env b [] h = refl
walk_mounts_committed env b (m ∷ ms) h =
    let first = commit_mount env b m in
    let next = walk_mounts env b ms in
    let (f, n, e) = and_then_done first next h in
    let entry = env.entry_of m.mount_point m.fs_type in
    let head =
      committed_as-append b [] first.1 (next.1 ++ []) m entry
        (commit_entry_committed env b m entry f) in
    let tail = all_committed-append env b first.1 next.1 [] ms (walk_mounts_committed env b ms n) in
    ap (λ es. all (is_committed env b es) (m ∷ ms))
      (e ∙ ap (λ t. first.1 ++ t) (sym (append-nil next.1)))
    ∙ ground (arith, head, tail)

walk_all_committed :
    (env : Env) (b : Bool) (o : Option (List Mount))
    → (walk_all env b o).0 ≡ done
    → (ms : List Mount) × (o ≡ some ms) × (all (is_committed env b (walk_all env b o).1) ms ≡ true)
unfolding walk_all
walk_all_committed env b none h = cc
walk_all_committed env b (some ms) h = (ms, refl, walk_mounts_committed env b ms h)

-- The effects of a commit that succeeds.
abbrev commit_end : List Effect
commit_end =
    property_set (codes "vold.checkpoint_committed") (codes "1") ∷ committed_work_started ∷ []

commit_changes_done :
    (env : Env) (cp : Cp)
    → cp.is_checkpointing ≡ true
    → env.dont_commit ≡ false
    → (commit_changes env cp).status ≡ done
    → ((and_then (mark_slot env.boot_control) (walk_all env cp.is_bow env.mounts)).0 ≡ done)
      × ((commit_changes env cp).effects
          ≡ (and_then (mark_slot env.boot_control) (walk_all env cp.is_bow env.mounts)).1
            ++ commit_end)
      × ((commit_changes env cp).state ≡ record cp { is_checkpointing = false; file = none })
unfolding commit_changes finish_commit
commit_changes_done env cp c d h =
    let es = and_then (mark_slot env.boot_control) (walk_all env cp.is_bow env.mounts) in
    ground (
      arith,
      append_assoc es.1 (property_set (codes "vold.checkpoint_committed") (codes "1") ∷ [])
          (committed_work_started ∷ []),
    )

-- A commit that succeeds while the process is checkpointing and commits are allowed has found the
-- mounted file systems, and has committed each that takes part. It ends the checkpoint, removes
-- the file and starts the deferred work.
pub commit_changes_complete :
    (env : Env) (cp : Cp)
    → cp.is_checkpointing ≡ true
    → env.dont_commit ≡ false
    → (commit_changes env cp).status ≡ done
    → (ms : List Mount) × (env.mounts ≡ some ms)
      × (all (is_committed env cp.is_bow (commit_changes env cp).effects) ms ≡ true)
      × (starts_work (commit_changes env cp).effects ≡ true)
      × ((commit_changes env cp).state ≡ record cp { is_checkpointing = false; file = none })
commit_changes_complete env cp c d h =
    let marked = mark_slot env.boot_control in
    let walked = walk_all env cp.is_bow env.mounts in
    let (st, es, state) = commit_changes_done env cp c d h in
    let (_, w, e) = and_then_done marked walked st in
    let (ms, found, covered) = walk_all_committed env cp.is_bow env.mounts w in
    let split : marked.1 ++ (walked.1 ++ commit_end) ≡ (commit_changes env cp).effects =
      sym (es ∙ ap (λ t. t ++ commit_end) e ∙ append_assoc marked.1 walked.1 commit_end) in
    (
      ms,
      found,
      ap (λ t. all (is_committed env cp.is_bow t) ms) (sym split)
          ∙ all_committed-append env cp.is_bow marked.1 walked.1 commit_end ms covered,
      ap starts_work es ∙ ground (arith, any-append is_work (and_then marked walked).1 commit_end),
      state,
    )
