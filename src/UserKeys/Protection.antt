-- ===== src/UserKeys/Protection.antt =====
-- FsCrypt.cpp: the CE key of a user is created, read, stored under a secret and unlocked.
use platform_system_vold.Base.{
  ℕ, Bool, true, false, not, ◌||◌, List, [], ◌∷◌, ◌++◌, Option, none, some, if◌then◌else◌, ◌==◌,
  any, Text, codes, to_string, ltb, ℤ, pos, negsuc, ◌^◌, ◌-◌,
}
use platform_system_vold.Keys.Act.{
  Act, pure, fail, reads, finds, checked, ◌>>=◌, ◌>>◌, modifies, succeeds, require, is_some,
}
use platform_system_vold.Keys.World.{World, KeyAuthentication, uses_keystore}
use platform_system_vold.Keys.Calls.{call, path_exists}
use platform_system_vold.Keys.Upgrades.{cp_needs_checkpoint}
use platform_system_vold.Keys.Storage.{
  export_wrapped_storage_key, retrieve_key, store_key_atomically,
}
use platform_system_vold.Keys.Install.{
  KeyGeneration, never_gen, fscrypt_max_key_size, generate_storage_key, EncryptionOptions,
  EncryptionPolicy, install_key,
}
use platform_system_vold.UserKeys.Paths.{
  user_key_dir, user_key_temp, get_ce_key_paths, get_ce_key_current_path, get_ce_key_new_path,
}
use platform_system_vold.UserKeys.Fixation.{fixate_user_ce_key}
use platform_system_vold.UserKeys.Users.{
  Fbe, Users, find_user, erase_user, insert_user, assign_user, erase_path, assign_path, on_disk,
  attempt, empty_authentication,
}

-- `makeGen`.
abbrev pub make_gen : Option EncryptionOptions → KeyGeneration
make_gen none = never_gen
make_gen (some options) = record {
  keysize = fscrypt_max_key_size;
  allow_gen = true;
  use_hw_wrapped_key = options.use_hw_wrapped;
}

abbrev pub data_mnt_point : Text
data_mnt_point = codes "/data"

-- A user id, which is a `uint32_t`, as "%d" prints it.
abbrev pub as_int : ℕ → ℤ
as_int n = if ltb n (2 ^ 31) then pos n else negsuc (2 ^ 32 - 1 - n)

unfoldable pub get_ce_key_directory_path : ℕ → Text
get_ce_key_directory_path user_id = user_key_dir ++ (codes "/ce/" ++ to_string (as_int user_id))

abbrev pub is_empty : {A : Type 0} → List A → Bool
is_empty [] = true
is_empty (x ∷ xs) = false

abbrev pub is_user : ℕ → ℕ → Bool
is_user user_id u = u == user_id

module _ (fbe : Fbe) where
  -- The paths of the keys as the directory lists them at this time.
  unfoldable pub list_ce_key_paths : (directory_path : Text) → World → List Text
  list_ce_key_paths directory_path w =
      get_ce_key_paths directory_path (fbe.readdir w.clock directory_path w)

  -- `install_storage_key`, for the data file system.
  unfoldable pub install_storage_key : Text → Act Users EncryptionPolicy
  install_storage_key key = do
    options ← finds (λ u. u.data_options)
    raw ←
        if options.use_hw_wrapped
        then on_disk (export_wrapped_storage_key fbe.sys key)
        else pure key
    let installed =
        install_key fbe.sys fbe.kernel data_mnt_point options raw
          (record { options = options; key_raw_ref = [] })
    require installed.0
    pure installed.1

  -- `ce_key_exists`. A directory that is not there lists no keys.
  unfoldable pub ce_key_exists : ℕ → World → Bool
  ce_key_exists user_id w =
      let directory_path = get_ce_key_directory_path user_id in
      path_exists fbe.sys (get_ce_key_current_path directory_path) w
      || not (is_empty (list_ce_key_paths directory_path w))

  -- `create_ce_key`. The directory of the user's keys is prepared by a call.
  unfoldable pub create_ce_key : ℕ → (ephemeral : Bool) → Act Users (Unit {0})
  create_ce_key user_id ephemeral = do
    gen ← reads (λ u. make_gen u.data_options)
    ce_key ← on_disk (generate_storage_key fbe.sys gen)
    if ephemeral then pure tt else do
      on_disk (call fbe.sys)
      modifies (λ u. record u { new_ce_keys = insert_user user_id ce_key u.new_ce_keys })
    ce_policy ← install_storage_key ce_key
    modifies (λ u. record u { ce_policies = assign_user user_id ce_policy u.ce_policies })

  -- `read_and_fixate_user_ce_key`, from one of the paths on.
  unfoldable pub try_ce_keys :
      (directory_path : Text) → KeyAuthentication → (paths all_paths : List Text) → Act Users Text
  try_ce_keys directory_path auth [] all_paths = fail
  try_ce_keys directory_path auth (ce_key_path ∷ paths) all_paths = do
    ce_key ← attempt (on_disk (retrieve_key fbe.sys ce_key_path auth))
    elim ce_key [
      | none ↦ try_ce_keys directory_path auth paths all_paths
      | some key ↦ do
        modifies
            (λ u. record u { deferred_fixations = erase_path directory_path u.deferred_fixations })
        fixated ←
            succeeds (on_disk (fixate_user_ce_key fbe.sys directory_path ce_key_path all_paths))
        pure key
    ]

  unfoldable pub read_and_fixate_user_ce_key : ℕ → KeyAuthentication → Act Users Text
  read_and_fixate_user_ce_key user_id auth = do
    let directory_path = get_ce_key_directory_path user_id
    paths ← reads (λ u. list_ce_key_paths directory_path u.world)
    try_ce_keys directory_path auth paths paths

  -- `fscrypt_set_ce_key_protection` with the key that it has found.
  unfoldable pub store_ce_key : ℕ → KeyAuthentication → (ce_key : Text) → Act Users (Unit {0})
  store_ce_key user_id auth ce_key = do
    let directory_path = get_ce_key_directory_path user_id
    paths ← reads (λ u. list_ce_key_paths directory_path u.world)
    ce_key_path ← checked (get_ce_key_new_path directory_path paths)
    on_disk (store_key_atomically fbe.sys ce_key_path user_key_temp auth ce_key)
    needed ← on_disk (cp_needs_checkpoint fbe.sys)
    if needed
        then modifies (λ u. record u {
          deferred_fixations = assign_path directory_path ce_key_path u.deferred_fixations;
        })
        else do
          modifies (λ u. record u {
            deferred_fixations = erase_path directory_path u.deferred_fixations;
          })
          on_disk (fixate_user_ce_key fbe.sys directory_path ce_key_path paths)
    modifies (λ u. record u { new_ce_keys = erase_user user_id u.new_ce_keys })

  -- The key is on disk, and is protected anew.
  unfoldable pub reprotect : ℕ → KeyAuthentication → Act Users (Unit {0})
  reprotect user_id auth = do
    ce_key ← attempt (read_and_fixate_user_ce_key user_id empty_authentication)
    elim ce_key [
      | some key ↦ store_ce_key user_id auth key
      | none ↦ do key ← read_and_fixate_user_ce_key user_id auth; pure tt
    ]

  -- The key is neither in memory nor on disk.
  unfoldable pub regenerate : ℕ → KeyAuthentication → Act Users (Unit {0})
  regenerate user_id auth = do
    create_ce_key user_id false
    ce_key ← finds (λ u. find_user user_id u.new_ce_keys)
    store_ce_key user_id auth ce_key

  unfoldable pub protect : ℕ → KeyAuthentication → Option Text → Act Users (Unit {0})
  protect user_id auth (some ce_key) = store_ce_key user_id auth ce_key
  protect user_id auth none = do
    exists ← reads (λ u. ce_key_exists user_id u.world)
    if exists then reprotect user_id auth else regenerate user_id auth

  -- `fscrypt_set_ce_key_protection`.
  unfoldable pub fscrypt_set_ce_key_protection : ℕ → (secret : Text) → Act Users (Unit {0})
  fscrypt_set_ce_key_protection user_id secret = if not fbe.is_fbe_enabled then pure tt else do
    let auth : KeyAuthentication = record { secret = secret }
    require (not (uses_keystore auth))
    ephemeral ← reads (λ u. any (is_user user_id) u.ephemeral_users)
    if ephemeral
        then pure tt
        else do ce_key ← reads (λ u. find_user user_id u.new_ce_keys); protect user_id auth ce_key

  unfoldable pub fixate_all : List (Text × Text) → Act Users (Unit {0})
  fixate_all [] = pure tt
  fixate_all ((directory_path, to_fix) ∷ rest) = do
    paths ← reads (λ u. list_ce_key_paths directory_path u.world)
    fixated ← succeeds (on_disk (fixate_user_ce_key fbe.sys directory_path to_fix paths))
    fixate_all rest

  -- `fscrypt_deferred_fixate_ce_keys`.
  unfoldable pub fscrypt_deferred_fixate_ce_keys : Act Users (Unit {0})
  fscrypt_deferred_fixate_ce_keys = do
    fixations ← reads (λ u. u.deferred_fixations)
    fixate_all fixations
    modifies (λ u. record u { deferred_fixations = [] })

  -- `fscrypt_unlock_ce_storage`.
  unfoldable pub fscrypt_unlock_ce_storage : ℕ → (secret : Text) → Act Users (Unit {0})
  fscrypt_unlock_ce_storage user_id secret = if not fbe.is_fbe_enabled then pure tt else do
    unlocked ← reads (λ u. is_some (find_user user_id u.ce_policies))
    if unlocked then pure tt else do
      ce_key ← read_and_fixate_user_ce_key user_id (record { secret = secret })
      ce_policy ← install_storage_key ce_key
      modifies (λ u. record u { ce_policies = assign_user user_id ce_policy u.ce_policies })
