-- ===== src/Keys/Stored/Wrapped.antt =====
-- KeyStorage.cpp: a key that Keystore wraps, while no call fails.
use platform_system_vold.Base.{ℕ, ◌≡◌, refl, ◌∙◌, true, false, [], ◌++◌, none, some, Text, text_eq}
use platform_system_vold.Keys.Act.{pure, require, bind-some}
use platform_system_vold.Keys.World.{
  encrypted_key, keymaster_key_blob, secdiscardable, version, Files, no_files, StorageBindingInfo,
  System, World, KeyAuthentication,
}
use platform_system_vold.Keys.Calls.{with_file, dir_at}
use platform_system_vold.Keys.Storage.{
  current_version, secdiscardable_bytes, prefix_secdiscardable, hash_with_prefix, bound_app_id,
  wrap_key, store_key, unwrap_key, retrieve_key,
}
use platform_system_vold.Keys.Streams.{healthy}
use platform_system_vold.Keys.Contents.{
  Goes, Goes-bind, Holds, read_holding, write_holding, sync_holding, make_holding,
}
use platform_system_vold.Keys.Wrapping.{
  IsCurrent, IsKeystore, wrapped_at, encrypt_holding, decrypt_holding,
}
use platform_system_vold.Keys.Stored.{
  app_id_holding, connects_holding, generate_holding, hash_holding, create_holding,
}

-- A key that Keystore wraps.
module _ (sys : System) (keystore : IsKeystore sys) (dir other : Text)
    (apart : text_eq (sys.canonical other) (sys.canonical dir) ≡ false) (key : Text) where
  abbrev pub keystore_auth : KeyAuthentication
  keystore_auth = record { secret = [] }

  abbrev with_version : Files
  with_version = with_file version (some current_version) no_files

  abbrev before_key : (bytes blob : Text) → Files
  before_key bytes blob =
      with_file keymaster_key_blob (some blob) (with_file secdiscardable (some bytes) with_version)

  abbrev pub id_of : (bytes : Text) → StorageBindingInfo → Text × StorageBindingInfo
  id_of bytes info =
      bound_app_id (hash_with_prefix (healthy sys) prefix_secdiscardable bytes ++ []) info

  abbrev pub wrapped_files : (bytes blob id : Text) → ℕ → Files
  wrapped_files bytes blob id n =
      with_file encrypted_key (some (wrapped_at sys keystore blob id key n)) (before_key bytes blob)

  -- The key of Keystore is made and stored, and wraps the key.
  wrap_holding :
      (bytes id : Text) (info : StorageBindingInfo) (w : World)
      → Holds sys dir other (with_file secdiscardable (some bytes) with_version) info w
      → (blob : Text) × (n : ℕ) × IsCurrent sys blob
        × Goes
            (wrap_key (healthy sys) dir keystore_auth id key)
            w
            (wrapped_at sys keystore blob id key n)
            (Holds sys dir other (before_key bytes blob) info)
  unfolding wrap_key require
  wrap_holding bytes id info w h =
      let (t, p, ht) = connects_holding sys dir other w h in
      let (u, q, hu) = generate_holding sys dir other id t ht in
      let blob = sys.generated_key t.clock true id in
      let current : IsCurrent sys blob = keystore.fresh t.clock true id in
      let (v, r, hv) = write_holding sys dir other apart blob keymaster_key_blob u hu in
      let (n, encrypted) =
        encrypt_holding sys keystore dir other (before_key bytes blob) info blob current refl refl
          id key v hv in
      let (x, e, hx) = encrypted in
      (
        blob,
        n,
        current,
        (
          x,
          bind-some _ _ w p ∙ bind-some _ _ t refl ∙ bind-some _ _ t q ∙ bind-some _ _ u r ∙ e,
          hx,
        ),
      )

  pub store_wrapped :
      (w : World)
      → dir_at sys dir w ≡ none
      → dir_at sys other w ≡ none
      → w.key_dirs_to_commit ≡ []
      → Goes (store_key (healthy sys) dir keystore_auth key) w tt (λ t.
        (bytes : Text) × (blob : Text) × (n : ℕ) × IsCurrent sys blob
        × Holds sys dir other
            (wrapped_files bytes blob (id_of bytes w.storage_binding_info).0 n)
            (id_of bytes w.storage_binding_info).1
            t)
  unfolding store_key pure
  store_wrapped w fresh vacant idle =
      Goes-bind _ _ (make_holding sys dir other w apart fresh vacant idle) λ t ht.
        Goes-bind _ _ (write_holding sys dir other apart current_version version t ht) λ a ha.
          Goes-bind _ _ (create_holding sys dir other apart a ha) λ t ht.
            let bytes = sys.random a.clock secdiscardable_bytes in
            let hash = hash_with_prefix (healthy sys) prefix_secdiscardable bytes in
            Goes-bind _ _ (app_id_holding sys dir other keystore_auth hash t ht) λ u hu.
              let (blob, n, current, wraps) =
                wrap_holding bytes (id_of bytes w.storage_binding_info).0
                  (id_of bytes w.storage_binding_info).1 u hu in
              Goes-bind _ _ wraps λ v hv.
                Goes-bind _ _
                  (write_holding sys dir other apart
                    (wrapped_at sys keystore blob (id_of bytes w.storage_binding_info).0 key n)
                    encrypted_key v hv)
                  λ x hx.
                    let (y, e, hy) = sync_holding sys dir other apart x hx in
                    (y, e, (bytes, blob, n, current, hy))

  pub retrieve_wrapped :
      (bytes blob : Text) (info : StorageBindingInfo) (n : ℕ) (w : World)
      → IsCurrent sys blob
      → Holds sys dir other (wrapped_files bytes blob (id_of bytes info).0 n) info w
      → Goes (retrieve_key (healthy sys) dir keystore_auth) w key (
          Holds sys dir other
            (wrapped_files bytes blob (id_of bytes info).0 n)
            (id_of bytes info).1)
  unfolding retrieve_key unwrap_key require
  retrieve_wrapped bytes blob info n w current h =
      let id = (id_of bytes info).0 in
      let hash = hash_with_prefix (healthy sys) prefix_secdiscardable bytes in
      let wrapped = wrapped_at sys keystore blob id key n in
      Goes-bind _ _ (read_holding sys dir other apart version current_version refl w h) λ t ht.
        Goes-bind _ _ (t, refl, ht)
          λ t ht. Goes-bind _ _ (hash_holding sys dir other bytes t refl ht) λ t ht.
            Goes-bind _ _ (app_id_holding sys dir other keystore_auth hash t ht) λ t ht.
              Goes-bind _ _ (read_holding sys dir other apart encrypted_key wrapped refl t ht)
                λ t ht. Goes-bind _ _ (connects_holding sys dir other t ht) λ t ht.
                  Goes-bind _ _ (t, refl, ht)
                    λ t ht.
                      decrypt_holding sys keystore dir other (wrapped_files bytes blob id n)
                        (id_of bytes info).1 blob current refl refl id key n t ht
