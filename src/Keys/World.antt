-- ===== src/Keys/World.antt =====
-- KeyStorage.cpp: the files of a key's directory, the state of the process, and what Keystore, the
-- cryptographic library, the kernel and the external programs answer.
use platform_system_vold.Base.{ℕ, Bool, true, false, List, [], ◌∷◌, Option, none, Text, ◌==◌}
use platform_system_vold.Checkpoint.Control.Types.{Env, Cp}

-- The files of a key directory.
pub data KeyFile : Type 0 where
  encrypted_key keymaster_key_blob keymaster_key_blob_upgraded secdiscardable version : KeyFile

abbrev file_number : KeyFile → ℕ
file_number encrypted_key = 0
file_number keymaster_key_blob = 1
file_number keymaster_key_blob_upgraded = 2
file_number secdiscardable = 3
file_number version = 4

abbrev pub same_name : KeyFile → KeyFile → Bool
same_name f g = file_number f == file_number g

abbrev pub Files : Type 0
Files = KeyFile → Option Text

-- A directory: its files as processes see them, and its entries as a power loss leaves them.
pub record Dir : Type 0 where
  pub now : Files
  pub durable : Files

abbrev pub no_files : Files
no_files f = none

abbrev pub empty_dir : Dir
empty_dir = record { now = no_files; durable = no_files }

-- `StorageBindingInfo::State`.
pub data BindingState : Type 0 where
  uninitialized in_use not_used : BindingState

-- `StorageBindingInfo`, less its lock.
pub record StorageBindingInfo : Type 0 where
  pub seed : Text
  pub state : BindingState

-- What Keystore is asked to do with a key.
pub data Request : Type 0 where
  encrypt : (app_id : Text) → Request
  decrypt : (app_id nonce : Text) → Request

-- A Keystore operation as it begins. `update` and `finish` are given the input that went before.
pub record Operation : Type 0 where
  pub upgraded_blob : Option Text
  pub out_nonce : Option Text
  pub update : (before chunk : Text) → Option Text
  pub finish : (before : Text) → Option Text

-- What the code that is not in the repository does. A call to it is numbered: `works n` says whether
-- call `n` succeeds.
pub record System : Type 0 where
  pub works : ℕ → Bool
  pub canonical : (path : Text) → Text
  pub remnant : ℕ → Option Text
  pub random : (call count : ℕ) → Text
  pub sha512 : Text → Text
  pub generated_key : (call : ℕ) → (rollback_resistant : Bool) → (app_id : Text) → Text
  pub generated_storage_key : (call : ℕ) → Text
  pub exported_key : (call : ℕ) → Text → Text
  pub begins : (call : ℕ) → (blob : Text) → Request → Operation
  pub gcm_encrypt : (key nonce plaintext : Text) → Text
  pub gcm_tag : (key nonce plaintext : Text) → Text
  pub gcm_decrypt : (key nonce body : Text) → Text
  pub gcm_verifies : (key nonce body tag : Text) → Bool
  pub partly_discarded : (call : ℕ) → Files → Files
  pub partly_removed : (call : ℕ) → Dir → Option Dir
  pub cp_env : Env

-- The state: the directories by canonical path, the process's variables, the keys that were deleted
-- from Keystore, and the process's state of checkpointing.
pub record World : Type 0 where
  pub clock : ℕ
  pub dirs : (canonical : Text) → Option Dir
  pub key_dirs_to_commit : List Text
  pub storage_binding_info : StorageBindingInfo
  pub seed_bound_property : Bool
  pub deleted : List Text
  pub cp : Cp

-- `KeyAuthentication`.
pub record KeyAuthentication : Type 0 where
  pub secret : Text

abbrev pub uses_keystore : KeyAuthentication → Bool
uses_keystore a = elim a.secret [ [] ↦ true | c ∷ s ↦ false ]
