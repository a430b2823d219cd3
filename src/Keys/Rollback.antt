-- ===== src/Keys/Rollback.antt =====
-- KeyStorage.cpp with Checkpoint.cpp: keys that are used while a checkpoint may be rolled back.
use platform_system_vold.Base.{
  ◌≡◌, refl, sym, ap, ◌∙◌, Bool, true, false, List, [], ◌∷◌, Option, none, some, if◌then◌else◌,
  Text, text_eq, text_eq→eq, Bool-cases, inl, inr,
}
use platform_system_vold.Checkpoint.Control.Counter.{needs_checkpoint}
use platform_system_vold.Keys.Act.{◌>>=◌, modifies}
use platform_system_vold.Keys.Keeps.{Keeps, keeps_rules}
use platform_system_vold.Keys.Quiet.{
  needed, IsOfFiles, call_quiet, read_file_to_string_quiet, delete_leftover_quiet,
  keystore_begin_quiet, cp_needs_checkpoint_quiet, update_completely_quiet, finish_quiet,
  connects_quiet, generate_app_id_quiet, read_secdiscardable_quiet, decrypt_without_keystore_quiet,
}
use platform_system_vold.Keys.World.{
  keymaster_key_blob, keymaster_key_blob_upgraded, Dir, System, World, Request, KeyAuthentication,
}
use platform_system_vold.Keys.Calls.{
  dir_at, file_at, content_of, in_dir, with_file, set_file, write_string_to_file, unlink_file,
}
use platform_system_vold.Keys.Upgrades.{
  schedule_key_commit, commit_upgraded_key, delete_upgraded_key, cp_needs_checkpoint, current_blob,
  keep_upgraded, begin_with, begin_keystore_op, decrypt_with_keystore_key,
}
use platform_system_vold.Keys.Storage.{unwrap_key, retrieve_key}

-- A checkpoint is needed, and the directories hold these old keys.
pub record HasOldKeys (sys : System) (blobs : Text → Option Text) (w : World) : Type 0 where
  pub asked : needed sys w ≡ true
  pub held : (d : Text) → content_of (w.dirs d) keymaster_key_blob ≡ blobs d

module _ (sys : System) (blobs : Text → Option Text) where
  same-HasOldKeys :
      (v w : World)
      → v.dirs ≡ w.dirs
      → v.key_dirs_to_commit ≡ w.key_dirs_to_commit
      → needed sys v ≡ needed sys w
      → HasOldKeys sys blobs v
      → HasOldKeys sys blobs w
  same-HasOldKeys v w d k n h = record {
    asked = sym n ∙ h.asked;
    held = λ p. rw (sym d) (h.held p);
  }

  of_files : IsOfFiles sys (HasOldKeys sys blobs)
  of_files = record { same = same-HasOldKeys }

  other_file :
      (content : Option Text) (d : Option Dir)
      → content_of (in_dir (with_file keymaster_key_blob_upgraded content) d) keymaster_key_blob
        ≡ content_of d keymaster_key_blob
  other_file content none = refl
  other_file content (some d) = refl

  -- Another file of a directory changes.
  set_file-HasOldKeys :
      (dir : Text) (content : Option Text) (w : World)
      → HasOldKeys sys blobs w
      → HasOldKeys sys blobs (set_file sys dir keymaster_key_blob_upgraded content w)
  set_file-HasOldKeys dir content w h = record {
    asked = h.asked;
    held = λ p. elim (Bool-cases (text_eq p (sys.canonical dir))) [
      | inl e ↦ rw e (
          other_file content (dir_at sys dir w)
          ∙ ap (λ (k : Text). content_of (w.dirs k) keymaster_key_blob)
              (sym (text_eq→eq p (sys.canonical dir) e))
          ∙ h.held p)
      | inr e ↦ rw e (h.held p)
    ];
  }

  write-HasOldKeys :
      (s dir : Text)
      → Keeps (HasOldKeys sys blobs) (write_string_to_file sys s dir keymaster_key_blob_upgraded)
  unfolding write_string_to_file
  write-HasOldKeys s dir = search (keeps_rules, call_quiet, of_files, set_file-HasOldKeys) depth 30

  unlink-HasOldKeys :
      (dir : Text) → Keeps (HasOldKeys sys blobs) (unlink_file sys dir keymaster_key_blob_upgraded)
  unfolding unlink_file
  unlink-HasOldKeys dir = search (keeps_rules, call_quiet, of_files, set_file-HasOldKeys) depth 30

  current_blob-HasOldKeys :
      (already : Bool) (dir : Text) → Keeps (HasOldKeys sys blobs) (current_blob sys already dir)
  unfolding current_blob delete_upgraded_key
  current_blob-HasOldKeys already dir =
      search
        (keeps_rules, read_file_to_string_quiet, delete_leftover_quiet, of_files, unlink-HasOldKeys)
        depth 30

  -- The process says that a checkpoint is needed: the upgrade is scheduled.
  settle-HasOldKeys :
      (dir : Text)
      → Keeps (HasOldKeys sys blobs) (
          cp_needs_checkpoint sys >>= λ needs.
          if needs then schedule_key_commit sys dir else commit_upgraded_key sys true dir)
  unfolding ◌>>=◌ cp_needs_checkpoint schedule_key_commit modifies
  settle-HasOldKeys dir = record {
    kept = λ w h.
        let t = (cp_needs_checkpoint_quiet sys of_files).kept w h in
        rw h.asked (record { asked = t.asked; held = h.held });
  }

  keep_upgraded-HasOldKeys :
      (already : Bool) (dir : Text) (up : Option Text)
      → Keeps (HasOldKeys sys blobs) (keep_upgraded sys already dir up)
  unfolding keep_upgraded
  keep_upgraded-HasOldKeys already dir none = search keeps_rules
  keep_upgraded-HasOldKeys true dir (some up) = search keeps_rules
  keep_upgraded-HasOldKeys false dir (some up) =
      search (keeps_rules, write-HasOldKeys, settle-HasOldKeys) depth 30

  begin_keystore_op-HasOldKeys :
      (dir : Text) (r : Request) → Keeps (HasOldKeys sys blobs) (begin_keystore_op sys dir r)
  unfolding begin_keystore_op begin_with
  begin_keystore_op-HasOldKeys dir r =
      search
        (
          keeps_rules, current_blob-HasOldKeys, keystore_begin_quiet, of_files,
          keep_upgraded-HasOldKeys,
        )
        depth 30

  decrypt-HasOldKeys :
      (dir id s : Text) → Keeps (HasOldKeys sys blobs) (decrypt_with_keystore_key sys dir id s)
  unfolding decrypt_with_keystore_key
  decrypt-HasOldKeys dir id s =
      search
        (keeps_rules, begin_keystore_op-HasOldKeys, update_completely_quiet, finish_quiet, of_files)
        depth 30

  pub retrieve_key-HasOldKeys :
      (dir : Text) (auth : KeyAuthentication)
      → Keeps (HasOldKeys sys blobs) (retrieve_key sys dir auth)
  unfolding retrieve_key unwrap_key
  retrieve_key-HasOldKeys dir auth =
      search
        (
          keeps_rules,
          read_file_to_string_quiet,
          read_secdiscardable_quiet,
          generate_app_id_quiet sys of_files,
          decrypt_without_keystore_quiet,
          connects_quiet,
          of_files,
          decrypt-HasOldKeys,
        )
        depth 30

-- The state after a sequence of retrievals.
unfoldable pub retrieve_all : System → List (Text × KeyAuthentication) → World → World
retrieve_all sys [] w = w
retrieve_all sys ((dir, auth) ∷ uses) w = retrieve_all sys uses (retrieve_key sys dir auth w).1

retrieve_all-HasOldKeys :
    (sys : System) (blobs : Text → Option Text) (uses : List (Text × KeyAuthentication)) (w : World)
    → HasOldKeys sys blobs w
    → HasOldKeys sys blobs (retrieve_all sys uses w)
unfolding retrieve_all
retrieve_all-HasOldKeys sys blobs [] w h = h
retrieve_all-HasOldKeys sys blobs ((dir, auth) ∷ uses) w h =
    retrieve_all-HasOldKeys sys blobs uses (retrieve_key sys dir auth w).1
      ((retrieve_key-HasOldKeys sys blobs dir auth).kept w h)

-- While a checkpoint is needed, retrieving keys, however often and whatever fails, leaves the file
-- `keymaster_key_blob` of each directory as it was, whatever upgrades Keystore asks for.
pub retrieve_all-keeps_old_keys :
    (sys : System) (uses : List (Text × KeyAuthentication)) (dir : Text) (w : World)
    → (needs_checkpoint sys.cp_env w.cp).0 ≡ true
    → file_at sys dir keymaster_key_blob (retrieve_all sys uses w)
      ≡ file_at sys dir keymaster_key_blob w
retrieve_all-keeps_old_keys sys uses dir w needs =
    let blobs = λ (d : Text). content_of (w.dirs d) keymaster_key_blob in
    (retrieve_all-HasOldKeys sys blobs uses w (record { asked = needs; held = λ d. refl })).held
      (sys.canonical dir)
