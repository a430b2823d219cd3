-- ===== src/Keys/Storage.antt =====
-- KeyStorage.cpp: keys stored, retrieved and destroyed, and the seed that they are bound to.
use platform_system_vold.Base.{
  ℕ, zero, suc, ◌^◌, ◌-◌, ◌+◌, Bool, true, false, not, ◌&&◌, List, [], ◌∷◌, ◌++◌, none, some,
  if◌then◌else◌, leb, length, take, drop, Text, codes, text_eq,
}
use platform_system_vold.Keys.Act.{Act, pure, reads, ◌>>=◌, ◌>>◌, succeeds, require}
use platform_system_vold.Keys.World.{
  KeyFile, encrypted_key, keymaster_key_blob, keymaster_key_blob_upgraded, secdiscardable, version,
  uninitialized, in_use, not_used, StorageBindingInfo, System, World, KeyAuthentication,
  uses_keystore,
}
use platform_system_vold.Keys.Calls.{
  call, path_exists, file_exists, read_file_to_string, write_string_to_file, make_dir,
  fsync_directory, fsync_parent_directory, read_random_bytes, secdiscard, recursive_delete_key,
}
use platform_system_vold.Keys.Upgrades.{
  check_size, gcm_nonce_bytes, gcm_mac_bytes, connects, delete_key, cancel_pending_key_commit,
  rename_key_dir, encrypt_with_keystore_key, decrypt_with_keystore_key,
}

abbrev pub aes_key_bytes : ℕ
aes_key_bytes = 32

abbrev pub secdiscardable_bytes : ℕ
secdiscardable_bytes = 2 ^ 14

abbrev pub sha512_cblock : ℕ
sha512_cblock = 128

abbrev pub current_version : Text
current_version = codes "1"

abbrev pub prefix_secdiscardable : Text
prefix_secdiscardable = codes "Android secdiscardable SHA512"

abbrev pub prefix_keygen : Text
prefix_keygen = codes "Android key wrapping key generation SHA512"

-- `std::string::resize`: the text is cut, or zeros are added.
unfoldable pub resize : ℕ → Text → Text
resize zero s = []
resize (suc n) [] = 0 ∷ resize n []
resize (suc n) (c ∷ s) = c ∷ resize n s

-- `generateAppId`: the id, and the state of the binding after it.
unfoldable pub bound_app_id : Text → StorageBindingInfo → Text × StorageBindingInfo
bound_app_id app_id info = elim info.state [
  | uninitialized ↦ (app_id, record info { state = not_used })
  | in_use ↦ (app_id ++ info.seed, info)
  | not_used ↦ (app_id, info)
]

unfoldable pub generate_app_id : KeyAuthentication → (secdiscardable_hash : Text) → Act World Text
generate_app_id auth hash w =
    let (app_id, info) = bound_app_id (hash ++ auth.secret) w.storage_binding_info in
    (some app_id, record w { storage_binding_info = info })

-- `setKeyStorageBindingSeed`.
unfoldable pub set_key_storage_binding_seed : Text → Act World (Unit {0})
set_key_storage_binding_seed seed w = elim w.storage_binding_info.state [
  | uninitialized ↦ (
    some tt,
    record w {
      storage_binding_info = record { seed = seed; state = in_use };
      seed_bound_property = true;
    },
  )
  | in_use ↦ (none, w)
  | not_used ↦ (none, w)
]

-- The parts of a wrapped key behind its nonce.
abbrev pub body_of : Text → Text
body_of ciphertext =
    take (length ciphertext - gcm_nonce_bytes - gcm_mac_bytes) (drop gcm_nonce_bytes ciphertext)

abbrev pub tag_of : Text → Text
tag_of ciphertext =
    drop (length ciphertext - gcm_nonce_bytes - gcm_mac_bytes) (drop gcm_nonce_bytes ciphertext)

module _ (sys : System) where
  -- `hashWithPrefix`.
  unfoldable pub hash_with_prefix : (prefix tohash : Text) → Text
  hash_with_prefix prefix tohash = sys.sha512 (resize sha512_cblock prefix ++ tohash)

  -- `generateKeyStorageKey` with `Keystore::generateKey`.
  unfoldable pub generate_key_storage_key : (app_id : Text) → Act World Text
  generate_key_storage_key app_id = do
    n ← reads (λ w. w.clock)
    generated ← succeeds (call sys)
    if generated
        then pure (sys.generated_key n true app_id)
        else do m ← reads (λ w. w.clock); call sys; pure (sys.generated_key m false app_id)

  unfoldable pub generate_wrapped_storage_key : Act World Text
  generate_wrapped_storage_key = do
    keystore ← connects sys
    require keystore
    n ← reads (λ w. w.clock)
    call sys
    pure (sys.generated_storage_key n)

  unfoldable pub export_wrapped_storage_key : Text → Act World Text
  export_wrapped_storage_key ks_key = do
    keystore ← connects sys
    require keystore
    n ← reads (λ w. w.clock)
    call sys
    pure (sys.exported_key n ks_key)

  unfoldable pub create_secdiscardable : Text → Act World Text
  create_secdiscardable dir = do
    bytes ← read_random_bytes sys secdiscardable_bytes
    write_string_to_file sys bytes dir secdiscardable
    pure (hash_with_prefix prefix_secdiscardable bytes)

  unfoldable pub read_secdiscardable : Text → Act World Text
  read_secdiscardable dir = do
    there ← reads (file_exists sys dir secdiscardable)
    if not there then pure [] else do
      bytes ← read_file_to_string sys dir secdiscardable
      pure (hash_with_prefix prefix_secdiscardable bytes)

  abbrev pub wrapping_key : (pre_key : Text) → Text
  wrapping_key pre_key = resize aes_key_bytes (hash_with_prefix prefix_keygen pre_key)

  -- `encryptWithoutKeystore`. The context, its set-up, the update, the end and the tag are calls.
  unfoldable pub encrypt_without_keystore : (pre_key plaintext : Text) → Act World Text
  encrypt_without_keystore pre_key plaintext = do
    let key = wrapping_key pre_key
    nonce ← read_random_bytes sys gcm_nonce_bytes
    call sys
    call sys
    call sys
    let body = sys.gcm_encrypt key nonce plaintext
    check_size body (length plaintext)
    call sys
    call sys
    pure (nonce ++ (body ++ sys.gcm_tag key nonce plaintext))

  unfoldable pub decrypt_without_keystore : (pre_key ciphertext : Text) → Act World Text
  decrypt_without_keystore pre_key ciphertext = do
    require (leb (gcm_nonce_bytes + gcm_mac_bytes) (length ciphertext))
    let key = wrapping_key pre_key
    let nonce = take gcm_nonce_bytes ciphertext
    call sys
    call sys
    call sys
    let plaintext = sys.gcm_decrypt key nonce (body_of ciphertext)
    check_size plaintext (length ciphertext - gcm_nonce_bytes - gcm_mac_bytes)
    call sys
    call sys
    require (sys.gcm_verifies key nonce (body_of ciphertext) (tag_of ciphertext))
    pure plaintext

  unfoldable pub wrap_key : Text → KeyAuthentication → (app_id key : Text) → Act World Text
  wrap_key dir auth app_id key =
      if not (uses_keystore auth) then encrypt_without_keystore app_id key else do
        keystore ← connects sys
        require keystore
        ks_key ← generate_key_storage_key app_id
        write_string_to_file sys ks_key dir keymaster_key_blob
        encrypt_with_keystore_key sys dir app_id key

  -- `storeKey`.
  unfoldable pub store_key : Text → KeyAuthentication → (key : Text) → Act World (Unit {0})
  store_key dir auth key = do
    make_dir sys dir
    write_string_to_file sys current_version dir version
    hash ← if uses_keystore auth then create_secdiscardable dir else pure []
    app_id ← generate_app_id auth hash
    wrapped ← wrap_key dir auth app_id key
    write_string_to_file sys wrapped dir encrypted_key
    fsync_directory sys dir

  unfoldable pub unwrap_key : Text → KeyAuthentication → (app_id wrapped : Text) → Act World Text
  unwrap_key dir auth app_id wrapped =
      if not (uses_keystore auth) then decrypt_without_keystore app_id wrapped else do
        keystore ← connects sys
        require keystore
        decrypt_with_keystore_key sys dir app_id wrapped

  unfoldable pub retrieve_key : Text → KeyAuthentication → Act World Text
  retrieve_key dir auth = do
    stored ← read_file_to_string sys dir version
    require (text_eq stored current_version)
    hash ← read_secdiscardable dir
    app_id ← generate_app_id auth hash
    wrapped ← read_file_to_string sys dir encrypted_key
    unwrap_key dir auth app_id wrapped

  -- `DeleteKeystoreKey`.
  unfoldable pub delete_keystore_key : Text → KeyFile → Act World (Unit {0})
  delete_keystore_key dir f = do
    blob ← read_file_to_string sys dir f
    keystore ← connects sys
    require keystore
    delete_key sys blob

  -- A round of the loop of `destroyKey`: whether all went well, and the files to be discarded.
  unfoldable pub destroy_blob : Text → KeyFile → Act World (Bool × List KeyFile)
  destroy_blob dir f = do
    there ← reads (file_exists sys dir f)
    gone ← if there then succeeds (delete_keystore_key dir f) else pure true
    pure (gone, if there then f ∷ [] else [])

  unfoldable pub destroy_blobs : Text → List KeyFile → Act World (Bool × List KeyFile)
  destroy_blobs dir [] = pure (true, [])
  destroy_blobs dir (f ∷ fs) = do
    first ← destroy_blob dir f
    rest ← destroy_blobs dir fs
    pure (first.0 && rest.0, first.1 ++ rest.1)

  unfoldable pub destroy_files : Text → Act World (Unit {0})
  destroy_files dir = do
    hashed ← reads (file_exists sys dir secdiscardable)
    blobs ← destroy_blobs dir (keymaster_key_blob ∷ keymaster_key_blob_upgraded ∷ [])
    discarded ← succeeds (
        secdiscard sys dir (encrypted_key ∷ (if hashed then secdiscardable ∷ blobs.1 else blobs.1)))
    removed ← succeeds (recursive_delete_key sys dir)
    require (blobs.0 && (discarded && removed))

  unfoldable pub destroy_key : Text → Act World (Unit {0})
  destroy_key dir = do cancel_pending_key_commit sys dir; destroy_files dir

  -- `storeKeyAtomically`.
  unfoldable pub store_key_atomically :
      (key_path tmp_path : Text) → KeyAuthentication → (key : Text) → Act World (Unit {0})
  store_key_atomically key_path tmp_path auth key = do
    stored ← reads (path_exists sys key_path)
    require (not stored)
    left_over ← reads (path_exists sys tmp_path)
    destroyed ← if left_over then succeeds (destroy_key tmp_path) else pure true
    store_key tmp_path auth key
    rename_key_dir sys tmp_path key_path
    fsync_parent_directory sys key_path
