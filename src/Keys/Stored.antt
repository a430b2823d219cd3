-- ===== src/Keys/Stored.antt =====
-- KeyStorage.cpp: the steps of storing and of retrieving a key, while no call fails.
pub mod Sealed
pub mod Wrapped
use platform_system_vold.Base.{
  ℕ, suc, ◌≡◌, refl, sym, ap, ◌∙◌, Bool, true, false, not, List, [], ◌∷◌, ◌++◌, Option, none, some,
  if◌then◌else◌, arith, Text, text_eq, text_eq_refl,
}
use platform_system_vold.Keys.Act.{
  Act, ◌>>=◌, ◌>>◌, pure, reads, finds, modifies, succeeds, require, is_some, fail, checked,
  bind-some,
}
use platform_system_vold.Keys.World.{
  encrypted_key, keymaster_key_blob, keymaster_key_blob_upgraded, secdiscardable, version, KeyFile,
  Files, no_files, StorageBindingInfo, System, World, KeyAuthentication, uses_keystore,
}
use platform_system_vold.Keys.Calls.{
  call, with_file, dir_at, file_exists, read_file_to_string, read_random_bytes, make_dir,
  fsync_parent_directory,
}
use platform_system_vold.Keys.Upgrades.{connects}
use platform_system_vold.Keys.Storage.{
  current_version, secdiscardable_bytes, prefix_secdiscardable, hash_with_prefix, bound_app_id,
  generate_app_id, generate_key_storage_key, create_secdiscardable, read_secdiscardable,
  encrypt_without_keystore, decrypt_without_keystore, wrap_key, store_key, unwrap_key, retrieve_key,
}
use platform_system_vold.Keys.Streams.{healthy, later, Passes}
use platform_system_vold.Keys.Sealing.{
  IsSealing, sealed, encrypt_without_keystore-sealed, decrypt_without_keystore-sealed,
}
use platform_system_vold.Keys.Contents.{
  Goes, Goes-bind, Holds, later-Holds, Passes-holding, read_holding, write_holding, sync_holding,
  make_holding,
}
use platform_system_vold.Keys.Wrapping.{IsKeystore, wrapped_at, encrypt_holding, decrypt_holding}

module _ (sys : System) (dir other : Text) {files : Files} {info : StorageBindingInfo} where
  -- The id of a key is made, and the binding is decided.
  pub app_id_holding :
      (auth : KeyAuthentication) (hash : Text) (w : World)
      → Holds sys dir other files info w
      → Goes
          (generate_app_id auth hash)
          w
          (bound_app_id (hash ++ auth.secret) info).0
          (Holds sys dir other files (bound_app_id (hash ++ auth.secret) info).1)
  unfolding generate_app_id
  app_id_holding auth hash w h = (
    (generate_app_id auth hash w).1,
    ap
        (λ (i : StorageBindingInfo).
          (some (bound_app_id (hash ++ auth.secret) i).0, (generate_app_id auth hash w).1))
        h.bound,
    record {
      vacant = h.vacant;
      there = h.there;
      now = h.now;
      idle = h.idle;
      bound = ap (λ (i : StorageBindingInfo). (bound_app_id (hash ++ auth.secret) i).1) h.bound;
    },
  )

  pub connects_holding :
      (w : World)
      → Holds sys dir other files info w
      → Goes (connects (healthy sys)) w true (Holds sys dir other files info)
  unfolding connects succeeds call require
  connects_holding w h =
      Passes-holding sys dir other w h (connects (healthy sys)) true (suc w.clock, refl)

  pub random_holding :
      (n : ℕ) (w : World)
      → Holds sys dir other files info w
      → Goes
          (read_random_bytes (healthy sys) n)
          w
          (sys.random w.clock n)
          (Holds sys dir other files info)
  unfolding read_random_bytes call ◌>>=◌ reads pure require
  random_holding n w h =
      Passes-holding sys dir other w h (read_random_bytes (healthy sys) n) (sys.random w.clock n)
        (suc w.clock, refl)

  pub generate_holding :
      (id : Text) (w : World)
      → Holds sys dir other files info w
      → Goes
          (generate_key_storage_key (healthy sys) id)
          w
          (sys.generated_key w.clock true id)
          (Holds sys dir other files info)
  unfolding generate_key_storage_key call ◌>>=◌ reads pure require succeeds
  generate_holding id w h =
      Passes-holding sys dir other w h (generate_key_storage_key (healthy sys) id)
        (sys.generated_key w.clock true id) (suc w.clock, refl)

  pub hash_holding :
      (bytes : Text) (w : World)
      → files secdiscardable ≡ some bytes
      → Holds sys dir other files info w
      → Goes
          (read_secdiscardable (healthy sys) dir)
          w
          (hash_with_prefix (healthy sys) prefix_secdiscardable bytes)
          (Holds sys dir other files info)
  unfolding read_secdiscardable read_file_to_string call ◌>>=◌ reads finds pure require
  hash_holding bytes w e h =
      Passes-holding sys dir other w h (read_secdiscardable (healthy sys) dir)
        (hash_with_prefix (healthy sys) prefix_secdiscardable bytes)
        (suc w.clock, rw (h.now secdiscardable ∙ e) (rw (h.now secdiscardable ∙ e) refl))

  pub no_hash_holding :
      (w : World)
      → files secdiscardable ≡ none
      → Holds sys dir other files info w
      → Goes (read_secdiscardable (healthy sys) dir) w [] (Holds sys dir other files info)
  unfolding read_secdiscardable ◌>>=◌ reads pure
  no_hash_holding w e h = (w, rw (h.now secdiscardable ∙ e) refl, h)

module _ (sys : System) (dir other : Text)
    (apart : text_eq (sys.canonical other) (sys.canonical dir) ≡ false) {files : Files}
    {info : StorageBindingInfo} where
  pub create_holding :
      (w : World)
      → Holds sys dir other files info w
      → Goes
          (create_secdiscardable (healthy sys) dir)
          w
          (hash_with_prefix
            (healthy sys)
            prefix_secdiscardable
            (sys.random w.clock secdiscardable_bytes))
          (Holds sys dir other
            (with_file secdiscardable (some (sys.random w.clock secdiscardable_bytes)) files)
            info)
  unfolding create_secdiscardable pure
  create_holding w h = Goes-bind _ _ (random_holding sys dir other secdiscardable_bytes w h) λ t ht.
      Goes-bind _ _
        (write_holding sys dir other apart (sys.random w.clock secdiscardable_bytes) secdiscardable
          t ht)
        λ t ht. (t, refl, ht)
