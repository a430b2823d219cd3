-- ===== src/Keys/Upgrades.antt =====
-- KeyStorage.cpp and Keystore.cpp: the upgrade of a Keystore key, committed at once or when the
-- checkpoint is, and the operations that use the key.
use platform_system_vold.Base.{
  ℕ, zero, suc, ◌*◌, Bool, true, not, List, [], ◌∷◌, ◌++◌, Option, none, some, if◌then◌else◌, ◌==◌,
  leb, any, length, take, drop, Text,
}
use platform_system_vold.Checkpoint.Control.Counter.{needs_checkpoint}
use platform_system_vold.Keys.Act.{
  Act, pure, fail, reads, checked, ◌>>=◌, ◌>>◌, modifies, succeeds, require,
}
use platform_system_vold.Keys.World.{
  keymaster_key_blob, keymaster_key_blob_upgraded, Files, Request, encrypt, decrypt, Operation,
  System, World,
}
use platform_system_vold.Keys.Calls.{
  with_file, in_dir, call, dir_at, file_exists, is_same_file, set_dir, read_file_to_string,
  write_string_to_file, unlink_file, fsync_directory, rename_dir,
}

-- The list less the first element that passes the test.
unfoldable pub erase_first : (Text → Bool) → List Text → List Text
erase_first test [] = []
erase_first test (x ∷ xs) = let rest = erase_first test xs in if test x then xs else x ∷ rest

unfoldable pub replace_first : (Text → Bool) → Text → List Text → List Text
replace_first test y [] = []
replace_first test y (x ∷ xs) =
    let rest = replace_first test y xs in if test x then y ∷ xs else x ∷ rest

abbrev pub gcm_nonce_bytes : ℕ
gcm_nonce_bytes = 12

abbrev pub gcm_mac_bytes : ℕ
gcm_mac_bytes = 16

abbrev pub update_input_max_size : ℕ
update_input_max_size = 32 * 1024

-- `checkSize`.
abbrev pub check_size : Text → ℕ → Act World (Unit {0})
check_size s expected = require (length s == expected)

abbrev pub moved_blob : Files → Files
moved_blob files =
    with_file keymaster_key_blob_upgraded none
      (with_file keymaster_key_blob (files keymaster_key_blob_upgraded) files)

module _ (sys : System) where
  -- `Keystore::Keystore`: whether the service answers.
  unfoldable pub connects : Act World Bool
  connects = succeeds (call sys)

  -- `Keystore::deleteKey`.
  unfoldable pub delete_key : Text → Act World (Unit {0})
  delete_key blob = do call sys; modifies (λ w. record w { deleted = blob ∷ w.deleted })

  unfoldable pub rename_blob_now : Text → Act World (Unit {0})
  rename_blob_now path w =
      if file_exists sys path keymaster_key_blob_upgraded w
      then (some tt, set_dir sys path (in_dir moved_blob (dir_at sys path w)) w)
      else (none, w)

  -- rename(2) of `keymaster_key_blob_upgraded` to `keymaster_key_blob`.
  unfoldable pub rename_blob : Text → Act World (Unit {0})
  rename_blob path = do call sys; rename_blob_now path

  -- `CommitUpgradedKey`.
  unfoldable pub commit_upgraded_key : (keystore : Bool) → Text → Act World (Unit {0})
  commit_upgraded_key keystore dir = do
    blob ← read_file_to_string sys dir keymaster_key_blob
    rename_blob dir
    fsync_directory sys dir
    gone ← succeeds (do require keystore; delete_key blob)
    pure tt

  unfoldable pub commit_all : (keystore : Bool) → List Text → Act World (Unit {0})
  commit_all keystore [] = pure tt
  commit_all keystore (dir ∷ dirs) = do
    committed ← succeeds (commit_upgraded_key keystore dir)
    commit_all keystore dirs

  -- `DeferredCommitKeystoreKeys`.
  unfoldable pub deferred_commit_keystore_keys : Act World (Unit {0})
  deferred_commit_keystore_keys = do
    keystore ← connects
    dirs ← reads (λ w. w.key_dirs_to_commit)
    commit_all keystore dirs
    modifies (λ w. record w { key_dirs_to_commit = [] })

  unfoldable pub is_key_commit_pending : Text → World → Bool
  is_key_commit_pending dir w = any (λ p. is_same_file sys dir p w) w.key_dirs_to_commit

  unfoldable pub schedule_key_commit : Text → Act World (Unit {0})
  schedule_key_commit dir =
      modifies (λ w. record w { key_dirs_to_commit = w.key_dirs_to_commit ++ (dir ∷ []) })

  unfoldable pub cancel_pending_key_commit : Text → Act World (Unit {0})
  cancel_pending_key_commit dir = modifies (λ w. record w {
    key_dirs_to_commit = erase_first (λ p. is_same_file sys p dir w) w.key_dirs_to_commit;
  })

  -- `RenameKeyDir`: the entry is found before the directory is renamed.
  unfoldable pub rename_key_dir : (old_name new_name : Text) → Act World (Unit {0})
  rename_key_dir old_name new_name = do
    renamed ←
        reads
          (λ w. replace_first (λ p. is_same_file sys old_name p w) new_name w.key_dirs_to_commit)
    rename_dir sys old_name new_name
    modifies (λ w. record w { key_dirs_to_commit = renamed })

  unfoldable pub delete_leftover : Text → Act World (Unit {0})
  delete_leftover dir = do
    blob ← read_file_to_string sys dir keymaster_key_blob_upgraded
    delete_key blob

  -- `DeleteUpgradedKey`.
  unfoldable pub delete_upgraded_key : Text → Act World (Unit {0})
  delete_upgraded_key dir = do
    there ← reads (file_exists sys dir keymaster_key_blob_upgraded)
    if not there then pure tt else do
      gone ← succeeds (delete_leftover dir)
      unlinked ← succeeds (unlink_file sys dir keymaster_key_blob_upgraded)
      pure tt

  -- `Keystore::begin`.
  unfoldable pub keystore_begin : Text → Request → Act World Operation
  keystore_begin blob request = do
    n ← reads (λ w. w.clock)
    call sys
    pure (sys.begins n blob request)

  unfoldable pub cp_needs_checkpoint : Act World Bool
  cp_needs_checkpoint w =
      let (needed, cp) = needs_checkpoint sys.cp_env w.cp in (some needed, record w { cp = cp })

  -- The blob that `BeginKeystoreOp` uses.
  unfoldable pub current_blob : (already_upgraded : Bool) → Text → Act World Text
  current_blob already_upgraded dir =
      if already_upgraded
      then read_file_to_string sys dir keymaster_key_blob_upgraded
      else do delete_upgraded_key dir; read_file_to_string sys dir keymaster_key_blob

  unfoldable pub keep_upgraded :
      (already_upgraded : Bool) → Text → Option Text → Act World (Unit {0})
  keep_upgraded already_upgraded dir none = pure tt
  keep_upgraded already_upgraded dir (some upgraded) = if already_upgraded then fail else do
    write_string_to_file sys upgraded dir keymaster_key_blob_upgraded
    needed ← cp_needs_checkpoint
    if needed then schedule_key_commit dir else commit_upgraded_key true dir

  unfoldable pub begin_with : (already_upgraded : Bool) → Text → Request → Act World Operation
  begin_with already_upgraded dir request = do
    blob ← current_blob already_upgraded dir
    op ← keystore_begin blob request
    keep_upgraded already_upgraded dir op.upgraded_blob
    pure op

  -- `BeginKeystoreOp`.
  unfoldable pub begin_keystore_op : Text → Request → Act World Operation
  begin_keystore_op dir request = do
    already_upgraded ← reads (is_key_commit_pending dir)
    begin_with already_upgraded dir request

  -- `KeystoreOperation::updateCompletely`. The fuel bounds the rounds: each takes at least a byte.
  unfoldable pub update_round : Operation → (before chunk : Text) → Act World Text
  update_round op before chunk = do call sys; checked (op.update before chunk)

  unfoldable pub update_loop : (fuel : ℕ) → Operation → (before input : Text) → Act World Text
  update_loop fuel op before [] = pure []
  update_loop zero op before (c ∷ s) = fail
  update_loop (suc fuel) op before (c ∷ s) = do
    let chunk = take update_input_max_size (c ∷ s)
    output ← update_round op before chunk
    rest ← update_loop fuel op (before ++ chunk) (drop update_input_max_size (c ∷ s))
    pure (output ++ rest)

  unfoldable pub update_completely : Operation → Text → Act World Text
  update_completely op input = update_loop (length input) op [] input

  -- `KeystoreOperation::finish`.
  unfoldable pub finish : Operation → Text → Act World Text
  finish op before = do call sys; checked (op.finish before)

  unfoldable pub encrypt_with_keystore_key : Text → (app_id message : Text) → Act World Text
  encrypt_with_keystore_key dir app_id message = do
    op ← begin_keystore_op dir (encrypt app_id)
    nonce ← checked op.out_nonce
    check_size nonce gcm_nonce_bytes
    body ← update_completely op message
    mac ← finish op message
    check_size mac gcm_mac_bytes
    pure (nonce ++ (body ++ mac))

  -- `decryptWithKeystoreKey`. `substr` throws where the text is shorter than the nonce.
  unfoldable pub decrypt_with_keystore_key : Text → (app_id ciphertext : Text) → Act World Text
  decrypt_with_keystore_key dir app_id ciphertext = do
    require (leb gcm_nonce_bytes (length ciphertext))
    let body_and_mac = drop gcm_nonce_bytes ciphertext
    op ← begin_keystore_op dir (decrypt app_id (take gcm_nonce_bytes ciphertext))
    message ← update_completely op body_and_mac
    last ← finish op body_and_mac
    pure message
