-- ===== src/Keys/Install.antt =====
-- KeyUtil.cpp: keys that are generated when they are not stored, installed in the kernel and evicted
-- from it. A function that fills an out parameter returns what the parameter holds then.
use platform_system_vold.Base.{
  ℕ, zero, suc, ◌+◌, ◌*◌, Bool, true, false, not, [], ◌∷◌, Option, none, some, if◌then◌else◌, ◌==◌,
  leb, length, take, Text,
}
use platform_system_vold.Keys.Act.{Act, ◌>>=◌, ◌>>◌, pure, reads, require}
use platform_system_vold.Keys.World.{System, World, KeyAuthentication}
use platform_system_vold.Keys.Calls.{path_exists, read_random_bytes}
use platform_system_vold.Keys.Storage.{
  generate_wrapped_storage_key, retrieve_key, store_key_atomically,
}

pub record KeyGeneration : Type 0 where
  pub keysize : ℕ
  pub allow_gen : Bool
  pub use_hw_wrapped_key : Bool

abbrev pub never_gen : KeyGeneration
never_gen = record { keysize = 0; allow_gen = false; use_hw_wrapped_key = false }

-- Sizes of <linux/fscrypt.h>.
abbrev pub fscrypt_max_key_size : ℕ
fscrypt_max_key_size = 64

abbrev pub fscrypt_key_descriptor_size : ℕ
fscrypt_key_descriptor_size = 8

abbrev pub fscrypt_key_identifier_size : ℕ
fscrypt_key_identifier_size = 16

-- `generateStorageKey` with `randomKey`.
unfoldable pub generate_storage_key : System → KeyGeneration → Act World Text
generate_storage_key sys gen = do
  require gen.allow_gen
  if not gen.use_hw_wrapped_key
      then read_random_bytes sys gen.keysize
      else do require (gen.keysize == fscrypt_max_key_size); generate_wrapped_storage_key sys

unfoldable pub retrieve_or_generate_key :
    System → (key_path tmp_path : Text) → KeyAuthentication → KeyGeneration → Act World Text
retrieve_or_generate_key sys key_path tmp_path auth gen = do
  stored ← reads (path_exists sys key_path)
  if stored then retrieve_key sys key_path auth else do
    require gen.allow_gen
    key ← generate_storage_key sys gen
    store_key_atomically sys key_path tmp_path auth key
    pure key

-- `fscrypt_key_specifier`, by its type.
pub data KeySpecifier : Type 0 where
  descriptor identifier : Text → KeySpecifier

-- What the code reads of `EncryptionOptions`, and `EncryptionPolicy`.
pub record EncryptionOptions : Type 0 where
  pub policy_version : ℕ
  pub use_hw_wrapped : Bool

pub record EncryptionPolicy : Type 0 where
  pub options : EncryptionOptions
  pub key_raw_ref : Text

-- The flags that the kernel returns when it removes a key.
pub record Removal : Type 0 where
  pub other_users : Bool
  pub files_busy : Bool

-- What the kernel does, for a file system that is open. Its answers in the cleanup are by round.
pub record Kernel : Type 0 where
  pub opens : (mountpoint : Text) → Bool
  pub adds :
      (mountpoint : Text) → (hw_wrapped : Bool) → KeySpecifier → (raw : Text) → Option KeySpecifier
  pub removes : (mountpoint : Text) → KeySpecifier → Option Removal
  pub incompletely_removed : (round : ℕ) → (mountpoint : Text) → KeySpecifier → Option Bool
  pub removes_again : (round : ℕ) → (mountpoint : Text) → KeySpecifier → Option Removal

-- `generateKeyRef`.
unfoldable pub generate_key_ref : System → (key : Text) → Text
generate_key_ref sys key = take fscrypt_key_descriptor_size (sys.sha512 (sys.sha512 key))

unfoldable pub build_key_specifier : EncryptionPolicy → Option KeySpecifier
build_key_specifier p =
    if p.options.policy_version == 1
    then (if length p.key_raw_ref == fscrypt_key_descriptor_size
        then some (descriptor p.key_raw_ref)
        else none)
    else if p.options.policy_version == 2
    then (if length p.key_raw_ref == fscrypt_key_identifier_size
        then some (identifier p.key_raw_ref)
        else none)
    else none

abbrev pub zeros : ℕ → Text
zeros zero = []
zeros (suc n) = 0 ∷ zeros n

-- The policy with its reference so far, and the specifier that the kernel is asked to take.
unfoldable pub requested :
    System
    → EncryptionOptions
    → (key : Text) → EncryptionPolicy
    → EncryptionPolicy × Option KeySpecifier
requested sys options key policy =
    if options.policy_version == 1
    then (let p : EncryptionPolicy = record {
      options = options;
      key_raw_ref = generate_key_ref sys key;
    } in
        (p, build_key_specifier p))
    else (
      record { options = options; key_raw_ref = policy.key_raw_ref },
      if options.policy_version == 2 then some (identifier (zeros 16)) else none,
    )

-- The reference is the identifier that the kernel computed, where it did.
unfoldable pub with_identifier : KeySpecifier → EncryptionPolicy → EncryptionPolicy
with_identifier (descriptor d) p = p
with_identifier (identifier i) p = record p { key_raw_ref = take fscrypt_key_identifier_size i }

abbrev pub added : Option KeySpecifier → EncryptionPolicy → Bool × EncryptionPolicy
added none p = (false, p)
added (some spec) p = (true, with_identifier spec p)

abbrev pub install_requested :
    Kernel
    → (mountpoint : Text) → (hw_wrapped : Bool) → (key : Text) → EncryptionPolicy
    → Option KeySpecifier
    → Bool × EncryptionPolicy
install_requested kernel mountpoint hw key p none = (false, p)
install_requested kernel mountpoint hw key p (some spec) =
    if kernel.opens mountpoint then added (kernel.adds mountpoint hw spec key) p else (false, p)

unfoldable pub install_key :
    System
    → Kernel
    → (mountpoint : Text) → EncryptionOptions
    → (key : Text) → EncryptionPolicy
    → Bool × EncryptionPolicy
install_key sys kernel mountpoint options key policy =
    let (p, spec) = requested sys options key policy in
    install_requested kernel mountpoint options.use_hw_wrapped key p spec

-- `evictKey`: whether it succeeds, and the specifier for which the cleanup of busy files starts.
abbrev pub after_removal_of : KeySpecifier → Option Removal → Bool × Option KeySpecifier
after_removal_of spec none = (false, none)
after_removal_of spec (some r) =
    (true, if r.other_users then none else if r.files_busy then some spec else none)

abbrev pub evict_specifier :
    Kernel → (mountpoint : Text) → Option KeySpecifier → Bool × Option KeySpecifier
evict_specifier kernel mountpoint none = (false, none)
evict_specifier kernel mountpoint (some spec) =
    after_removal_of spec (kernel.removes mountpoint spec)

unfoldable pub evict_key :
    Kernel → (mountpoint : Text) → EncryptionPolicy → Bool × Option KeySpecifier
evict_key kernel mountpoint policy =
    if kernel.opens mountpoint
    then evict_specifier kernel mountpoint (build_key_specifier policy)
    else (false, none)

-- How the cleanup of busy files ends, with the milliseconds that it waited.
pub data Cleanup : Type 0 where
  not_opened : Cleanup
  status_failed status_changed removal_failed cleaned_up never_completed :
      (total_wait_time : ℕ) → Cleanup

-- A round of the loop, after it has slept. `none` says that the loop goes on.
abbrev pub after_second_removal : Option Removal → (total : ℕ) → Option Cleanup
after_second_removal none total = some (removal_failed total)
after_second_removal (some r) total =
    if r.other_users then none else if not r.files_busy then some (cleaned_up total) else none

abbrev pub after_status : Option Bool → Option Removal → (total : ℕ) → Option Cleanup
after_status none removal total = some (status_failed total)
after_status (some false) removal total = some (status_changed total)
after_status (some true) removal total = after_second_removal removal total

module _ (kernel : Kernel) (mountpoint : Text) (spec : KeySpecifier) where
  unfoldable pub cleanup_round : (round total : ℕ) → Option Cleanup
  cleanup_round round total =
      after_status (kernel.incompletely_removed round mountpoint spec)
        (kernel.removes_again round mountpoint spec) total

  abbrev pub or_else : Option Cleanup → Cleanup → Cleanup
  or_else none rest = rest
  or_else (some c) rest = c

  -- The fuel bounds the rounds.
  unfoldable pub cleanup_loop : (fuel round wait_time total : ℕ) → Cleanup
  cleanup_loop zero round wait_time total = never_completed total
  cleanup_loop (suc fuel) round wait_time total =
      let rest = cleanup_loop fuel (suc round) (wait_time * 2) (total + wait_time) in
      if leb wait_time 51200
      then or_else (cleanup_round round (total + wait_time)) rest
      else never_completed total

  unfoldable pub wait_for_busy_files : Cleanup
  wait_for_busy_files = if kernel.opens mountpoint then cleanup_loop 6 0 3200 0 else not_opened
