-- ===== src/Keys/Stored/Sealed.antt =====
-- KeyStorage.cpp: a key that a secret wraps, while no call fails.
use platform_system_vold.Base.{ℕ, ◌≡◌, refl, false, [], ◌∷◌, none, some, Text, text_eq}
use platform_system_vold.Keys.Act.{pure, require}
use platform_system_vold.Keys.World.{
  encrypted_key, version, Files, no_files, StorageBindingInfo, System, World, KeyAuthentication,
}
use platform_system_vold.Keys.Calls.{with_file, dir_at}
use platform_system_vold.Keys.Storage.{
  current_version, bound_app_id, encrypt_without_keystore, decrypt_without_keystore, wrap_key,
  store_key, unwrap_key, retrieve_key,
}
use platform_system_vold.Keys.Streams.{healthy}
use platform_system_vold.Keys.Sealing.{
  IsSealing, sealed, encrypt_without_keystore-sealed, decrypt_without_keystore-sealed,
}
use platform_system_vold.Keys.Contents.{
  Goes, Goes-bind, Holds, Passes-holding, read_holding, write_holding, sync_holding, make_holding,
}
use platform_system_vold.Keys.Stored.{app_id_holding, no_hash_holding}

-- A key that a secret wraps.
module _ (sys : System) (sealing : IsSealing sys) (dir other : Text)
    (apart : text_eq (sys.canonical other) (sys.canonical dir) ≡ false) (c : ℕ) (s key : Text) where
  abbrev pub secret_auth : KeyAuthentication
  secret_auth = record { secret = c ∷ s }

  abbrev pub sealed_files : (id : Text) → ℕ → Files
  sealed_files id n =
      with_file encrypted_key (some (sealed sys sealing id key n))
        (with_file version (some current_version) no_files)

  pub store_sealed :
      (w : World)
      → dir_at sys dir w ≡ none
      → dir_at sys other w ≡ none
      → w.key_dirs_to_commit ≡ []
      → let bound = bound_app_id (c ∷ s) w.storage_binding_info in
        Goes
          (store_key (healthy sys) dir secret_auth key)
          w
          tt
          (λ t. (n : ℕ) × Holds sys dir other (sealed_files bound.0 n) bound.1 t)
  unfolding store_key wrap_key pure
  store_sealed w fresh vacant idle =
      let id = (bound_app_id (c ∷ s) w.storage_binding_info).0 in
      Goes-bind _ _ (make_holding sys dir other w apart fresh vacant idle) λ t ht.
        Goes-bind _ _ (write_holding sys dir other apart current_version version t ht) λ t ht.
          Goes-bind _ _ (t, refl, ht)
            λ t ht. Goes-bind _ _ (app_id_holding sys dir other secret_auth [] t ht) λ t ht.
              Goes-bind _ _
                (Passes-holding sys dir other t ht (encrypt_without_keystore (healthy sys) id key)
                  (sealed sys sealing id key t.clock)
                  (encrypt_without_keystore-sealed sys sealing id key t))
                λ u hu.
                  Goes-bind _ _
                    (write_holding sys dir other apart (sealed sys sealing id key t.clock)
                      encrypted_key u hu)
                    λ v hv.
                      let (x, e, hx) = sync_holding sys dir other apart v hv in
                      (x, e, (t.clock, hx))

  pub retrieve_sealed :
      (info : StorageBindingInfo) (n : ℕ) (w : World)
      → let bound = bound_app_id (c ∷ s) info in
        Holds sys dir other (sealed_files bound.0 n) info w
        → Goes
            (retrieve_key (healthy sys) dir secret_auth)
            w
            key
            (Holds sys dir other (sealed_files bound.0 n) bound.1)
  unfolding retrieve_key unwrap_key require
  retrieve_sealed info n w h =
      let id = (bound_app_id (c ∷ s) info).0 in
      Goes-bind _ _ (read_holding sys dir other apart version current_version refl w h) λ t ht.
        Goes-bind _ _ (t, refl, ht)
          λ t ht. Goes-bind _ _ (no_hash_holding sys dir other t refl ht) λ t ht.
            Goes-bind _ _ (app_id_holding sys dir other secret_auth [] t ht) λ t ht.
              Goes-bind _ _
                (read_holding sys dir other apart encrypted_key (sealed sys sealing id key n) refl t
                  ht)
                λ t ht.
                  Passes-holding sys dir other t ht
                    (decrypt_without_keystore (healthy sys) id (sealed sys sealing id key n)) key
                    (decrypt_without_keystore-sealed sys sealing id key n t)
