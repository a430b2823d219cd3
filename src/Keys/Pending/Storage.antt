-- ===== src/Keys/Pending/Storage.antt =====
-- KeyStorage.cpp: the list of key directories under the operations on keys.
use platform_system_vold.Base.{◌≡◌, refl, Bool, List, [], ◌∷◌, some, Text}
use platform_system_vold.Keys.Act.{◌>>=◌, pure, reads, modifies, succeeds, is_some}
use platform_system_vold.Keys.Keeps.{Keeps, keeps_rules}
use platform_system_vold.Keys.Quiet.{
  fsync_parent_directory_quiet, read_random_bytes_quiet, read_file_to_string_quiet, connects_quiet,
  update_completely_quiet, finish_quiet, generate_app_id_quiet, generate_key_storage_key_quiet,
  generate_wrapped_storage_key_quiet, export_wrapped_storage_key_quiet,
  set_key_storage_binding_seed_quiet, read_secdiscardable_quiet, encrypt_without_keystore_quiet,
  decrypt_without_keystore_quiet,
}
use platform_system_vold.Keys.World.{
  keymaster_key_blob, secdiscardable, version, encrypted_key, System, World, KeyAuthentication,
}
use platform_system_vold.Keys.Calls.{call}
use platform_system_vold.Keys.Upgrades.{
  commit_upgraded_key, commit_all, connects, deferred_commit_keystore_keys,
  encrypt_with_keystore_key, decrypt_with_keystore_key,
}
use platform_system_vold.Keys.Storage.{
  create_secdiscardable, wrap_key, store_key, unwrap_key, retrieve_key, store_key_atomically,
}
use platform_system_vold.Keys.Operations.{
  KeyOp, store_atomically, retrieve, destroy, rename, commit_deferred, generate_wrapped,
  export_wrapped, bind_seed, perform,
}
use platform_system_vold.Keys.Pending.States.{IsSound}
use platform_system_vold.Keys.Pending.Calls.{
  IsSound-IsOfFiles, write_string_to_file-IsSound, fsync_directory-IsSound, make_dir-Keeps,
}
use platform_system_vold.Keys.Pending.Upgrades.{
  begin_keystore_op-IsSound, destroy_key-IsSound, rename_key_dir-IsSound,
}

module _ (sys : System) where
  encrypt_with_keystore_key-IsSound :
      (dir id s : Text) → Keeps (IsSound sys) (encrypt_with_keystore_key sys dir id s)
  unfolding encrypt_with_keystore_key
  encrypt_with_keystore_key-IsSound dir id s =
      search
        (
          keeps_rules, begin_keystore_op-IsSound, update_completely_quiet, finish_quiet,
          IsSound-IsOfFiles,
        )
        depth 30

  decrypt_with_keystore_key-IsSound :
      (dir id s : Text) → Keeps (IsSound sys) (decrypt_with_keystore_key sys dir id s)
  unfolding decrypt_with_keystore_key
  decrypt_with_keystore_key-IsSound dir id s =
      search
        (
          keeps_rules, begin_keystore_op-IsSound, update_completely_quiet, finish_quiet,
          IsSound-IsOfFiles,
        )
        depth 30

  create_secdiscardable-IsSound : (dir : Text) → Keeps (IsSound sys) (create_secdiscardable sys dir)
  unfolding create_secdiscardable
  create_secdiscardable-IsSound dir =
      search
        (
          keeps_rules,
          read_random_bytes_quiet,
          IsSound-IsOfFiles,
          λ (s : Text). write_string_to_file-IsSound sys s dir secdiscardable refl,
        )
        depth 30

  wrap_key-IsSound :
      (dir : Text) (auth : KeyAuthentication) (id key : Text)
      → Keeps (IsSound sys) (wrap_key sys dir auth id key)
  unfolding wrap_key
  wrap_key-IsSound dir auth id key =
      search
        (
          keeps_rules,
          encrypt_without_keystore_quiet,
          connects_quiet,
          generate_key_storage_key_quiet,
          IsSound-IsOfFiles,
          encrypt_with_keystore_key-IsSound,
          λ (s : Text). write_string_to_file-IsSound sys s dir keymaster_key_blob refl,
        )
        depth 30

  store_key-IsSound :
      (dir : Text) (auth : KeyAuthentication) (key : Text)
      → Keeps (IsSound sys) (store_key sys dir auth key)
  unfolding store_key
  store_key-IsSound dir auth key =
      search
        (
          keeps_rules,
          make_dir-Keeps,
          create_secdiscardable-IsSound,
          generate_app_id_quiet sys (IsSound-IsOfFiles sys),
          wrap_key-IsSound,
          fsync_directory-IsSound,
          λ (s : Text). write_string_to_file-IsSound sys s dir version refl,
          λ (s : Text). write_string_to_file-IsSound sys s dir encrypted_key refl,
        )
        depth 30

  store_key_atomically-IsSound :
      (key_path tmp_path : Text) (auth : KeyAuthentication) (key : Text)
      → Keeps (IsSound sys) (store_key_atomically sys key_path tmp_path auth key)
  unfolding store_key_atomically
  store_key_atomically-IsSound key_path tmp_path auth key =
      search
        (
          keeps_rules, destroy_key-IsSound, store_key-IsSound, rename_key_dir-IsSound,
          fsync_parent_directory_quiet, IsSound-IsOfFiles,
        )
        depth 30

  retrieve_key-IsSound :
      (dir : Text) (auth : KeyAuthentication) → Keeps (IsSound sys) (retrieve_key sys dir auth)
  unfolding retrieve_key unwrap_key
  retrieve_key-IsSound dir auth =
      search
        (
          keeps_rules,
          read_file_to_string_quiet,
          read_secdiscardable_quiet,
          generate_app_id_quiet sys (IsSound-IsOfFiles sys),
          decrypt_without_keystore_quiet,
          connects_quiet,
          IsSound-IsOfFiles,
          decrypt_with_keystore_key-IsSound,
        )
        depth 30

  -- Whatever the commits do, the list is empty after them.
  cleared-IsSound : (w : World) → IsSound sys (record w { key_dirs_to_commit = [] })
  cleared-IsSound w = record { distinct = refl; upgraded = refl }

  commit_all_ends :
      (keystore : Bool) (dirs : List Text) (w : World)
      → (commit_all sys keystore dirs w).0 ≡ some tt
  unfolding commit_all ◌>>=◌ pure succeeds
  commit_all_ends keystore [] w = refl
  commit_all_ends keystore (dir ∷ dirs) w =
      commit_all_ends keystore dirs (commit_upgraded_key sys keystore dir w).1

  deferred_commit-IsSound : Keeps (IsSound sys) (deferred_commit_keystore_keys sys)
  unfolding deferred_commit_keystore_keys ◌>>=◌ connects reads modifies succeeds commit_all call
  deferred_commit-IsSound = record {
    kept = λ w s.
        let t = (connects sys w).1 in
        let answered = is_some (call sys w).0 in
        rw (commit_all_ends answered w.key_dirs_to_commit t)
          (cleared-IsSound (commit_all sys answered w.key_dirs_to_commit t).1);
  }

  pub perform-IsSound : (op : KeyOp) → Keeps (IsSound sys) (perform sys op)
  unfolding perform
  perform-IsSound (store_atomically key_path tmp_path auth key) =
      store_key_atomically-IsSound key_path tmp_path auth key
  perform-IsSound (retrieve dir auth) = search (keeps_rules, retrieve_key-IsSound)
  perform-IsSound (destroy dir) = destroy_key-IsSound sys dir
  perform-IsSound (rename old_name new_name) = rename_key_dir-IsSound sys old_name new_name
  perform-IsSound commit_deferred = deferred_commit-IsSound
  perform-IsSound generate_wrapped =
      search (keeps_rules, generate_wrapped_storage_key_quiet, IsSound-IsOfFiles)
  perform-IsSound (export_wrapped key) =
      search (keeps_rules, export_wrapped_storage_key_quiet, IsSound-IsOfFiles)
  perform-IsSound (bind_seed seed) =
      set_key_storage_binding_seed_quiet sys (IsSound-IsOfFiles sys) seed
