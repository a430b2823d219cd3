-- ===== src/Keys/Pending/Upgrades.antt =====
-- KeyStorage.cpp: the list of key directories when a Keystore key is used, and when a directory is
-- destroyed or renamed.
use platform_system_vold.Base.{
  ◌≡◌, refl, ap, Bool, true, false, List, Option, none, some, if◌then◌else◌, Text, text_eq,
  Bool-cases, inl, inr, suc,
}
use mathlib.Core.Path.{subst}
use platform_system_vold.Checkpoint.Control.Counter.{needs_checkpoint}
use platform_system_vold.Keys.Act.{Act, ◌>>=◌, pure, reads, modifies, require, is_some}
use platform_system_vold.Keys.Keeps.{Keeps, Leads, Leads-first, Leads-then, after_bind, keeps_rules}
use platform_system_vold.Keys.Quiet.{
  read_file_to_string_quiet, keystore_begin_quiet, cp_needs_checkpoint_quiet, destroy_blobs_quiet,
}
use platform_system_vold.Keys.World.{keymaster_key_blob_upgraded, System, World, Request}
use platform_system_vold.Keys.Calls.{
  call, dir_at, path_exists, write_string_to_file, can_move, move_dir, rename_now, rename_dir,
  is_same_file,
}
use platform_system_vold.Keys.Upgrades.{
  replace_first, commit_upgraded_key, is_key_commit_pending, schedule_key_commit,
  cancel_pending_key_commit, rename_key_dir, cp_needs_checkpoint, current_blob, keep_upgraded,
  begin_with, begin_keystore_op,
}
use platform_system_vold.Keys.Storage.{destroy_files, destroy_key}
use platform_system_vold.Keys.Writes.{write_string_to_file-file_at}
use platform_system_vold.Keys.Pending.Lists.{has_upgraded}
use platform_system_vold.Keys.Pending.States.{
  IsSound, IsUnlisted, schedule-IsSound, cancel-IsUnlisted, not_pending-IsUnlisted,
  move_dir-IsSound, same_dir-IsSound,
}
use platform_system_vold.Keys.Pending.Calls.{
  same-IsSound, IsSound-IsOfFiles, IsUnlisted-IsOfFiles, write_string_to_file-IsUnlisted,
  secdiscard-IsUnlisted, recursive_delete_key-IsUnlisted, commit_upgraded_key-IsUnlisted,
  current_blob-IsUnlisted,
}

module _ (sys : System) (dir : Text) where
  -- An upgraded key that is written is scheduled or committed.
  abbrev settle : Bool → Act World (Unit {0})
  settle needed = if needed then schedule_key_commit sys dir else commit_upgraded_key sys true dir

  settle-IsSound :
      (needed : Bool) (w : World)
      → IsUnlisted sys dir w
      → has_upgraded (dir_at sys dir w) ≡ true
      → IsSound sys (settle needed w).1
  unfolding schedule_key_commit modifies
  settle-IsSound true w u h = schedule-IsSound sys dir w u h
  settle-IsSound false w u h = ((commit_upgraded_key-IsUnlisted sys dir true).kept w u).sound

  ask_and_settle-IsSound :
      (w : World)
      → IsUnlisted sys dir w
      → has_upgraded (dir_at sys dir w) ≡ true
      → IsSound sys ((cp_needs_checkpoint sys >>= settle) w).1
  unfolding ◌>>=◌ cp_needs_checkpoint
  ask_and_settle-IsSound w u h =
      let (needed, t) = cp_needs_checkpoint sys w in
      settle-IsSound (needs_checkpoint sys.cp_env w.cp).0 t
        ((cp_needs_checkpoint_quiet sys (IsUnlisted-IsOfFiles sys dir)).kept w u) h

  keep_upgraded-IsSound :
      (up : Option Text) → Leads (IsUnlisted sys dir) (IsSound sys) (keep_upgraded sys false dir up)
  unfolding keep_upgraded pure
  keep_upgraded-IsSound none = record { led = λ w u. u.sound }
  keep_upgraded-IsSound (some up) = record {
    led = λ w u.
        let m = write_string_to_file sys up dir keymaster_key_blob_upgraded in
        let kept =
          (write_string_to_file-IsUnlisted sys dir up keymaster_key_blob_upgraded).kept w u in
        after_bind {Q = IsSound sys} m (λ _. cp_needs_checkpoint sys >>= settle) w
          (λ t e. (subst (λ (x : Option (Unit {0}) × World). IsUnlisted sys dir x.1) e kept).sound)
          λ a t e.
            ask_and_settle-IsSound t
              (subst (λ (x : Option (Unit {0}) × World). IsUnlisted sys dir x.1) e kept)
              (ap is_some
                (write_string_to_file-file_at sys dir keymaster_key_blob_upgraded up w t e));
  }

  -- The operation on a key whose upgrade is not pending.
  fresh_begin-IsSound :
      (request : Request)
      → Leads (IsUnlisted sys dir) (IsSound sys) (begin_with sys false dir request)
  unfolding begin_with
  fresh_begin-IsSound request =
      let weaker = λ (w : World) (u : IsUnlisted sys dir w). u.sound in
      search
        (
          Leads-first, Leads-then, keeps_rules, weaker, current_blob-IsUnlisted,
          keystore_begin_quiet, IsUnlisted-IsOfFiles, keep_upgraded-IsSound,
        )
        depth 30

  pending_upgrade-IsSound : (up : Option Text) → Keeps (IsSound sys) (keep_upgraded sys true dir up)
  unfolding keep_upgraded
  pending_upgrade-IsSound none = search keeps_rules
  pending_upgrade-IsSound (some up) = search keeps_rules

  pending_begin-IsSound :
      (request : Request) → Keeps (IsSound sys) (begin_with sys true dir request)
  unfolding begin_with current_blob keep_upgraded
  pending_begin-IsSound request =
      search
        (
          keeps_rules, read_file_to_string_quiet, keystore_begin_quiet, IsSound-IsOfFiles,
          pending_upgrade-IsSound,
        )
        depth 30

  pub begin_keystore_op-IsSound :
      (request : Request) → Keeps (IsSound sys) (begin_keystore_op sys dir request)
  unfolding begin_keystore_op ◌>>=◌ reads
  begin_keystore_op-IsSound request = record {
    kept = λ w s. elim (Bool-cases (is_key_commit_pending sys dir w)) [
      | inl e ↦ rw e ((pending_begin-IsSound request).kept w s)
      | inr e ↦ rw e ((fresh_begin-IsSound request).led w (not_pending-IsUnlisted sys dir w s e))
    ];
  }

  destroy_files-IsUnlisted : Keeps (IsUnlisted sys dir) (destroy_files sys dir)
  unfolding destroy_files
  destroy_files-IsUnlisted =
      search
        (
          keeps_rules, destroy_blobs_quiet, IsUnlisted-IsOfFiles, secdiscard-IsUnlisted,
          recursive_delete_key-IsUnlisted,
        )
        depth 30

  pub destroy_key-IsSound : Keeps (IsSound sys) (destroy_key sys dir)
  unfolding destroy_key cancel_pending_key_commit modifies ◌>>=◌
  destroy_key-IsSound = record {
    kept = λ w s.
        let t = (cancel_pending_key_commit sys dir w).1 in
        (destroy_files-IsUnlisted.kept t (cancel-IsUnlisted sys dir w s)).sound;
  }

-- `RenameKeyDir`, once the first call has succeeded.
module _ (sys : System) (old_name new_name : Text) where
  abbrev renamed_list : World → List Text
  renamed_list w = replace_first (λ p. is_same_file sys old_name p w) new_name w.key_dirs_to_commit

  abbrev listed_as : List Text → Act World (Unit {0})
  listed_as ps = modifies (λ w. record w { key_dirs_to_commit = ps })

  renamed-IsSound :
      (ps : List Text) (w : World)
      → (text_eq (sys.canonical old_name) (sys.canonical new_name) ≡ true
          → IsSound sys (record w { key_dirs_to_commit = ps }))
      → (can_move sys old_name new_name w ≡ true
          → IsSound sys (record (move_dir sys old_name new_name w) { key_dirs_to_commit = ps }))
      → IsSound sys w
      → IsSound sys ((rename_now sys old_name new_name >>= λ _. listed_as ps) w).1
  unfolding rename_now modifies ◌>>=◌
  renamed-IsSound ps w same moved s =
      elim (Bool-cases (text_eq (sys.canonical old_name) (sys.canonical new_name))) [
        | inl one ↦ elim (Bool-cases (path_exists sys old_name w)) [
          | inl e ↦ rw (one, e) (same one)
          | inr e ↦ rw (one, e) s
        ]
        | inr other ↦ elim (Bool-cases (can_move sys old_name new_name w)) [
          | inl e ↦ rw (other, e) (moved e)
          | inr e ↦ rw (other, e) s
        ]
      ]

  pub rename_key_dir-IsSound : Keeps (IsSound sys) (rename_key_dir sys old_name new_name)
  unfolding rename_key_dir rename_dir ◌>>=◌ reads call require
  rename_key_dir-IsSound = record {
    kept = λ w s.
        let t : World = record w { clock = suc w.clock } in
        let ticked = same-IsSound sys w t refl refl refl s in
        elim (Bool-cases (sys.works w.clock)) [
          | inl e ↦ rw e (
              renamed-IsSound (renamed_list w) t
                (λ one. same_dir-IsSound sys old_name new_name t one ticked)
                (λ can. move_dir-IsSound sys old_name new_name t can ticked) ticked)
          | inr e ↦ rw e ticked
        ];
  }
