-- ===== src/Keys/Binding/Storage.antt =====
-- KeyStorage.cpp: the operations on keys, on the binding of keys once it is decided.
use platform_system_vold.Base.{◌≡◌, ◌&&◌, ◌++◌, Bool, true, false, List, [], ◌∷◌, Text, arith}
use platform_system_vold.Keys.Act.{◌>>=◌, pure}
use platform_system_vold.Keys.Keeps.{Keeps, Keeps-bind, keeps_rules}
use platform_system_vold.Keys.World.{
  uninitialized, in_use, not_used, StorageBindingInfo, System, World, KeyFile, KeyAuthentication,
}
use platform_system_vold.Keys.Storage.{
  bound_app_id, generate_app_id, set_key_storage_binding_seed, generate_key_storage_key,
  generate_wrapped_storage_key, export_wrapped_storage_key, create_secdiscardable,
  read_secdiscardable, encrypt_without_keystore, decrypt_without_keystore, wrap_key, store_key,
  unwrap_key, retrieve_key, delete_keystore_key, destroy_blob, destroy_blobs, destroy_files,
  destroy_key, store_key_atomically,
}
use platform_system_vold.Keys.Operations.{
  KeyOp, store_atomically, retrieve, destroy, rename, commit_deferred, generate_wrapped,
  export_wrapped, bind_seed, perform, run, run_induction,
}
use platform_system_vold.Keys.Binding.Calls.{
  Bound, call-Bound, read_file_to_string-Bound, write_string_to_file-Bound, make_dir-Bound,
  fsync_directory-Bound, fsync_parent_directory-Bound, read_random_bytes-Bound, secdiscard-Bound,
  recursive_delete_key-Bound, connects-Bound, delete_key-Bound, deferred_commit_keystore_keys-Bound,
  cancel_pending_key_commit-Bound, rename_key_dir-Bound, encrypt_with_keystore_key-Bound,
  decrypt_with_keystore_key-Bound,
}

-- The binding is decided.
abbrev pub is_set : StorageBindingInfo → Bool
is_set info = elim info.state [ uninitialized ↦ false | in_use ↦ true | not_used ↦ true ]

module _ (sys : System) (info : StorageBindingInfo) (set : is_set info ≡ true) where
  pub bound_app_id-Bound : (id : Text) → is_set info ≡ true → (bound_app_id id info).1 ≡ info
  unfolding bound_app_id
  bound_app_id-Bound id set = ground arith

  pub generate_app_id-Bound :
      (auth : KeyAuthentication) (hash : Text) → Keeps (Bound info) (generate_app_id auth hash)
  unfolding generate_app_id
  generate_app_id-Bound auth hash = record {
    kept = λ w h. rw h (bound_app_id-Bound (hash ++ auth.secret) set);
  }

  pub generate_key_storage_key-Bound :
      (id : Text) → Keeps (Bound info) (generate_key_storage_key sys id)
  unfolding generate_key_storage_key
  generate_key_storage_key-Bound id = search (keeps_rules, call-Bound) depth 30

  pub generate_wrapped_storage_key-Bound : Keeps (Bound info) (generate_wrapped_storage_key sys)
  unfolding generate_wrapped_storage_key
  generate_wrapped_storage_key-Bound = search (keeps_rules, call-Bound, connects-Bound) depth 30

  pub export_wrapped_storage_key-Bound :
      (key : Text) → Keeps (Bound info) (export_wrapped_storage_key sys key)
  unfolding export_wrapped_storage_key
  export_wrapped_storage_key-Bound key = search (keeps_rules, call-Bound, connects-Bound) depth 30

  pub create_secdiscardable-Bound :
      (dir : Text) → Keeps (Bound info) (create_secdiscardable sys dir)
  unfolding create_secdiscardable
  create_secdiscardable-Bound dir =
      search (keeps_rules, read_random_bytes-Bound, write_string_to_file-Bound) depth 30

  pub read_secdiscardable-Bound : (dir : Text) → Keeps (Bound info) (read_secdiscardable sys dir)
  unfolding read_secdiscardable
  read_secdiscardable-Bound dir = search (keeps_rules, read_file_to_string-Bound) depth 30

  pub encrypt_without_keystore-Bound :
      (pre key : Text) → Keeps (Bound info) (encrypt_without_keystore sys pre key)
  unfolding encrypt_without_keystore
  encrypt_without_keystore-Bound pre key =
      search (keeps_rules, call-Bound, read_random_bytes-Bound) depth 30

  pub decrypt_without_keystore-Bound :
      (pre s : Text) → Keeps (Bound info) (decrypt_without_keystore sys pre s)
  unfolding decrypt_without_keystore
  decrypt_without_keystore-Bound pre s = search (keeps_rules, call-Bound) depth 30

  pub wrap_key-Bound :
      (dir : Text) (auth : KeyAuthentication) (id key : Text)
      → Keeps (Bound info) (wrap_key sys dir auth id key)
  unfolding wrap_key
  wrap_key-Bound dir auth id key =
      search
        (
          keeps_rules, encrypt_without_keystore-Bound, connects-Bound,
          generate_key_storage_key-Bound, write_string_to_file-Bound,
          encrypt_with_keystore_key-Bound,
        )
        depth 30

  pub store_key-Bound :
      (dir : Text) (auth : KeyAuthentication) (key : Text)
      → Keeps (Bound info) (store_key sys dir auth key)
  unfolding store_key
  store_key-Bound dir auth key =
      search
        (
          keeps_rules, make_dir-Bound, write_string_to_file-Bound, create_secdiscardable-Bound,
          generate_app_id-Bound, wrap_key-Bound, fsync_directory-Bound,
        )
        depth 30

  pub unwrap_key-Bound :
      (dir : Text) (auth : KeyAuthentication) (id s : Text)
      → Keeps (Bound info) (unwrap_key sys dir auth id s)
  unfolding unwrap_key
  unwrap_key-Bound dir auth id s =
      search
        (
          keeps_rules, decrypt_without_keystore-Bound, connects-Bound,
          decrypt_with_keystore_key-Bound,
        )
        depth 30

  pub retrieve_key-Bound :
      (dir : Text) (auth : KeyAuthentication) → Keeps (Bound info) (retrieve_key sys dir auth)
  unfolding retrieve_key
  retrieve_key-Bound dir auth =
      search
        (
          keeps_rules, read_file_to_string-Bound, read_secdiscardable-Bound, generate_app_id-Bound,
          unwrap_key-Bound,
        )
        depth 30

  pub delete_keystore_key-Bound :
      (dir : Text) (f : KeyFile) → Keeps (Bound info) (delete_keystore_key sys dir f)
  unfolding delete_keystore_key
  delete_keystore_key-Bound dir f =
      search (keeps_rules, read_file_to_string-Bound, connects-Bound, delete_key-Bound) depth 30

  pub destroy_blob-Bound : (dir : Text) (f : KeyFile) → Keeps (Bound info) (destroy_blob sys dir f)
  unfolding destroy_blob
  destroy_blob-Bound dir f = search (keeps_rules, delete_keystore_key-Bound) depth 30

  pub destroy_blobs-Bound :
      (dir : Text) (fs : List KeyFile) → Keeps (Bound info) (destroy_blobs sys dir fs)
  unfolding destroy_blobs
  destroy_blobs-Bound dir [] = search keeps_rules
  destroy_blobs-Bound dir (f ∷ fs) =
      Keeps-bind (destroy_blob sys dir f)
        (λ first. destroy_blobs sys dir fs >>= λ rest. pure (first.0 && rest.0, first.1 ++ rest.1))
        (destroy_blob-Bound dir f) λ first. search (keeps_rules, destroy_blobs-Bound dir fs)

  destroy_files-Bound : (dir : Text) → Keeps (Bound info) (destroy_files sys dir)
  unfolding destroy_files
  destroy_files-Bound dir =
      search (keeps_rules, destroy_blobs-Bound, secdiscard-Bound, recursive_delete_key-Bound) depth
        30

  pub destroy_key-Bound : (dir : Text) → Keeps (Bound info) (destroy_key sys dir)
  unfolding destroy_key
  destroy_key-Bound dir = search (keeps_rules, cancel_pending_key_commit-Bound, destroy_files-Bound)

  pub store_key_atomically-Bound :
      (key_path tmp_path : Text) (auth : KeyAuthentication) (key : Text)
      → Keeps (Bound info) (store_key_atomically sys key_path tmp_path auth key)
  unfolding store_key_atomically
  store_key_atomically-Bound key_path tmp_path auth key =
      search
        (
          keeps_rules, destroy_key-Bound, store_key-Bound, rename_key_dir-Bound,
          fsync_parent_directory-Bound,
        )
        depth 30

  pub set_key_storage_binding_seed-Bound :
      (seed : Text) → Keeps (Bound info) (set_key_storage_binding_seed seed)
  unfolding set_key_storage_binding_seed
  set_key_storage_binding_seed-Bound seed = record { kept = λ w h. ground arith }

  pub perform-Bound : (op : KeyOp) → Keeps (Bound info) (perform sys op)
  unfolding perform
  perform-Bound (store_atomically key_path tmp_path auth key) =
      store_key_atomically-Bound key_path tmp_path auth key
  perform-Bound (retrieve dir auth) = search (keeps_rules, retrieve_key-Bound)
  perform-Bound (destroy dir) = destroy_key-Bound dir
  perform-Bound (rename old_name new_name) = rename_key_dir-Bound sys info old_name new_name
  perform-Bound commit_deferred = deferred_commit_keystore_keys-Bound sys info
  perform-Bound generate_wrapped = search (keeps_rules, generate_wrapped_storage_key-Bound)
  perform-Bound (export_wrapped key) = search (keeps_rules, export_wrapped_storage_key-Bound)
  perform-Bound (bind_seed seed) = set_key_storage_binding_seed-Bound seed

  pub run-Bound : (ops : List KeyOp) (w : World) → Bound info w → Bound info (run sys ops w)
  run-Bound = run_induction sys perform-Bound
