-- ===== src/Keys/Atomic/Local.antt =====
-- KeyStorage.cpp: a key is wrapped in its directory, whose version stays.
use platform_system_vold.Base.{
  ◌≡◌, refl, Bool, true, false, List, Option, none, some, if◌then◌else◌, Text, Bool-cases, inl, inr,
}
use platform_system_vold.Keys.Keeps.{Keeps, keeps_rules}
use platform_system_vold.Keys.Quiet.{
  IsOfFiles, call_quiet, read_file_to_string_quiet, delete_leftover_quiet, delete_key_quiet,
  keystore_begin_quiet, cp_needs_checkpoint_quiet, update_completely_quiet, finish_quiet,
  connects_quiet, generate_key_storage_key_quiet, encrypt_without_keystore_quiet,
  read_random_bytes_quiet,
}
use platform_system_vold.Keys.World.{
  keymaster_key_blob, keymaster_key_blob_upgraded, secdiscardable, version, KeyFile, same_name,
  System, World, Request, KeyAuthentication,
}
use platform_system_vold.Keys.Calls.{
  dir_at, file_exists, in_dir, set_dir, set_file, sync_entries, write_string_to_file, unlink_file,
  fsync_directory,
}
use platform_system_vold.Keys.Upgrades.{
  moved_blob, rename_blob_now, rename_blob, schedule_key_commit, commit_upgraded_key,
  delete_upgraded_key, current_blob, keep_upgraded, begin_with, begin_keystore_op,
  encrypt_with_keystore_key,
}
use platform_system_vold.Keys.Storage.{create_secdiscardable, wrap_key}

-- A predicate that changes of the directory's other files keep.
pub record IsLocal (sys : System) (dir : Text) (P : World → Type 0) : Type 0 where
  pub of_files : IsOfFiles sys P
  pub sets :
      (f : KeyFile) (content : Option Text) (w : World)
      → same_name f version ≡ false
      → P w
      → P (set_file sys dir f content w)
  pub moves : (w : World) → P w → P (set_dir sys dir (in_dir moved_blob (dir_at sys dir w)) w)
  pub syncs : (w : World) → P w → P (set_dir sys dir (sync_entries (dir_at sys dir w)) w)
  pub lists : (ps : List Text) (w : World) → P w → P (record w { key_dirs_to_commit = ps })

module _ (sys : System) (dir : Text) {P : World → Type 0} (local : IsLocal sys dir P) where
  files : IsOfFiles sys P
  files = local.of_files

  set_local :
      (f : KeyFile) (content : Option Text) (w : World)
      → same_name f version ≡ false
      → P w
      → P (set_file sys dir f content w)
  set_local = local.sets

  synced_local : (w : World) → P w → P (set_dir sys dir (sync_entries (dir_at sys dir w)) w)
  synced_local = local.syncs

  listed_local : (ps : List Text) (w : World) → P w → P (record w { key_dirs_to_commit = ps })
  listed_local = local.lists

  pub write_local :
      (s : Text) (f : KeyFile)
      → same_name f version ≡ false
      → Keeps P (write_string_to_file sys s dir f)
  unfolding write_string_to_file
  write_local s f other = search (keeps_rules, call_quiet, files, set_local) depth 30

  unlink_local : Keeps P (unlink_file sys dir keymaster_key_blob_upgraded)
  unfolding unlink_file
  unlink_local = search (keeps_rules, call_quiet, files, set_local) depth 30

  pub sync_local : Keeps P (fsync_directory sys dir)
  unfolding fsync_directory
  sync_local = search (keeps_rules, call_quiet, files, synced_local) depth 30

  rename_now_local : Keeps P (rename_blob_now sys dir)
  unfolding rename_blob_now
  rename_now_local = record {
    kept = λ w h. elim (Bool-cases (file_exists sys dir keymaster_key_blob_upgraded w)) [
      | inl e ↦ rw e (local.moves w h)
      | inr e ↦ rw e h
    ];
  }

  rename_local : Keeps P (rename_blob sys dir)
  unfolding rename_blob
  rename_local = search (keeps_rules, call_quiet, files, rename_now_local) depth 30

  commit_local : (keystore : Bool) → Keeps P (commit_upgraded_key sys keystore dir)
  unfolding commit_upgraded_key
  commit_local keystore =
      search
        (
          keeps_rules, read_file_to_string_quiet, files, delete_key_quiet, files, rename_local,
          sync_local,
        )
        depth 30

  schedule_local : Keeps P (schedule_key_commit sys dir)
  unfolding schedule_key_commit
  schedule_local = search (keeps_rules, listed_local) depth 30

  current_blob_local : (already : Bool) → Keeps P (current_blob sys already dir)
  unfolding current_blob delete_upgraded_key
  current_blob_local already =
      search
        (keeps_rules, read_file_to_string_quiet, files, delete_leftover_quiet, files, unlink_local)
        depth 30

  write_upgraded_local :
      (s : Text) → Keeps P (write_string_to_file sys s dir keymaster_key_blob_upgraded)
  write_upgraded_local s = write_local s keymaster_key_blob_upgraded refl

  settle_local :
      (needed : Bool)
      → Keeps P (if needed then schedule_key_commit sys dir else commit_upgraded_key sys true dir)
  settle_local needed = search (keeps_rules, schedule_local, commit_local) depth 30

  keep_upgraded_local :
      (already : Bool) (up : Option Text) → Keeps P (keep_upgraded sys already dir up)
  unfolding keep_upgraded
  keep_upgraded_local already none = search keeps_rules
  keep_upgraded_local true (some up) = search keeps_rules
  keep_upgraded_local false (some up) =
      search (keeps_rules, write_upgraded_local, cp_needs_checkpoint_quiet, files, settle_local)
        depth 30

  begin_local : (r : Request) → Keeps P (begin_keystore_op sys dir r)
  unfolding begin_keystore_op begin_with
  begin_local r =
      search (keeps_rules, current_blob_local, keystore_begin_quiet, files, keep_upgraded_local)
        depth 30

  encrypt_local : (id s : Text) → Keeps P (encrypt_with_keystore_key sys dir id s)
  unfolding encrypt_with_keystore_key
  encrypt_local id s =
      search (keeps_rules, begin_local, update_completely_quiet, files, finish_quiet, files) depth
        30

  pub create_local : Keeps P (create_secdiscardable sys dir)
  unfolding create_secdiscardable
  create_local =
      search
        (
          keeps_rules,
          read_random_bytes_quiet,
          files,
          λ (s : Text). write_local s secdiscardable refl,
        )
        depth 30

  pub wrap_local :
      (auth : KeyAuthentication) (id key : Text) → Keeps P (wrap_key sys dir auth id key)
  unfolding wrap_key
  wrap_local auth id key =
      search
        (
          keeps_rules,
          encrypt_without_keystore_quiet,
          files,
          connects_quiet,
          files,
          generate_key_storage_key_quiet,
          files,
          encrypt_local,
          λ (s : Text). write_local s keymaster_key_blob refl,
        )
        depth 30
