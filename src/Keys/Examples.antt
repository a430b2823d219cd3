-- ===== src/Keys/Examples.antt =====
-- Runs of the operations on keys, and the theorems about them at these inputs.
use platform_system_vold.Base.{
  length, ◌+◌, ◌/◌, ℕ, zero, suc, ◌≡◌, refl, ◌⊎◌, inl, Bool, true, false, List, [], ◌∷◌, Option,
  none, some, arith, Text, codes,
}
use platform_system_vold.Checkpoint.Control.Types.{Cp, booted}
use platform_system_vold.Checkpoint.Control.Counter.{needs_checkpoint}
use platform_system_vold.Keys.World.{
  encrypted_key, keymaster_key_blob, keymaster_key_blob_upgraded, secdiscardable, version, Files,
  Dir, no_files, uninitialized, StorageBindingInfo, encrypt, System, World, KeyAuthentication,
}
use platform_system_vold.Keys.Calls.{file_at, dir_at}
use platform_system_vold.Keys.Upgrades.{commit_upgraded_key, update_completely}
use platform_system_vold.Keys.Storage.{
  resize, generate_app_id, set_key_storage_binding_seed, retrieve_key, store_key_atomically,
}
use platform_system_vold.Keys.Operations.{
  KeyOp, store_atomically, retrieve, destroy, rename, commit_deferred, bind_seed, run,
}
use platform_system_vold.Keys.Install.{
  zeros, KeyGeneration, KeySpecifier, descriptor, identifier, EncryptionOptions, EncryptionPolicy,
  Kernel, build_key_specifier, install_key, retrieve_or_generate_key, cleaned_up,
  wait_for_busy_files, requested, generate_key_ref, with_identifier, cleanup_round,
}
use platform_system_vold.Keys.Binding.{generate_app_id_stable}
use platform_system_vold.Keys.Pending.{run-IsSound}
use platform_system_vold.Keys.Pending.States.{IsSound}
use platform_system_vold.Keys.Commits.{durable_in, commit_upgraded_key_durable}
use platform_system_vold.Keys.Rollback.{retrieve_all, retrieve_all-keeps_old_keys}
use platform_system_vold.Keys.Atomic.{store_key_atomically-IsWhole}
use platform_system_vold.Keys.Atomic.Steps.{IsWhole}
use platform_system_vold.Keys.Streams.{healthy, update_completely-output}
use platform_system_vold.Keys.RoundTrip.{store_key_atomically-retrieve_key}
use platform_system_vold.Keys.Eviction.{
  IsKernel, installed_as, all_go_on, install_key-build_key_specifier, wait_for_busy_files_ends,
}
use platform_system_vold.Keys.Regeneration.{retrieve_or_generate_key_again}
use platform_system_vold.Keys.Device.{
  operation, system, device, resize_size, device-IsSealing, device-IsKeystore, encrypt-Streams,
}

abbrev key_path : Text
key_path = codes "/data/key"

abbrev tmp_path : Text
tmp_path = codes "/data/tmp"

abbrev keystore_auth : KeyAuthentication
keystore_auth = record { secret = [] }

abbrev secret_auth : KeyAuthentication
secret_auth = record { secret = codes "secret" }

abbrev unbound : StorageBindingInfo
unbound = record { seed = []; state = uninitialized }

abbrev state : (Text → Option Dir) → List Text → Cp → World
state dirs pending cp = record {
  clock = 0;
  dirs = dirs;
  key_dirs_to_commit = pending;
  storage_binding_info = unbound;
  seed_bound_property = false;
  deleted = [];
  cp = cp;
}

abbrev first_boot : World
first_boot = state (λ path. none) [] (booted none)

-- A directory with a key that Keystore has upgraded.
abbrev upgraded_files : Files
upgraded_files version = some (codes "1")
upgraded_files encrypted_key = some (codes "wrapped")
upgraded_files keymaster_key_blob = some (codes "old")
upgraded_files keymaster_key_blob_upgraded = some (codes "new")
upgraded_files secdiscardable = none

abbrev upgraded_dir : Text → Option Dir
upgraded_dir path = some (record { now = upgraded_files; durable = no_files })

abbrev checkpointing : Cp
checkpointing = record (booted (some (codes "3"))) {
  is_checkpointing = true;
  needs_checkpoint_was_called = true;
}

abbrev pending_boot : World
pending_boot = state upgraded_dir (key_path ∷ []) checkpointing

abbrev script : List KeyOp
script =
    retrieve key_path keystore_auth
    ∷ rename key_path tmp_path
    ∷ bind_seed (codes "seed")
    ∷ store_atomically key_path tmp_path secret_auth (codes "key")
    ∷ commit_deferred
    ∷ destroy key_path
    ∷ []

-- Each third call fails.
abbrev fails_at : ℕ → Bool
fails_at (suc (suc (suc n))) = fails_at n
fails_at (suc (suc zero)) = false
fails_at n = true

abbrev faulty : System
faulty = system fails_at (some (codes "newer"))

generate_app_id_stable_example :
    ((generate_app_id secret_auth []
        (run faulty script (generate_app_id secret_auth [] first_boot).1)).0
      ≡ (generate_app_id secret_auth [] first_boot).0)
    × (set_key_storage_binding_seed
          (codes "seed")
          (run faulty script (generate_app_id secret_auth [] first_boot).1)
        ≡ (none, run faulty script (generate_app_id secret_auth [] first_boot).1))
generate_app_id_stable_example =
    generate_app_id_stable faulty secret_auth [] (codes "seed") script first_boot

run-IsSound_example : IsSound faulty (run faulty script pending_boot)
run-IsSound_example =
    run-IsSound faulty script pending_boot (record { distinct = refl; upgraded = refl })

commit_upgraded_key_durable_example :
    ((commit_upgraded_key device true key_path pending_boot).1.deleted ≡ [])
    ⊎ (((commit_upgraded_key device true key_path pending_boot).1.deleted ≡ codes "old" ∷ [])
        × (durable_in
              (dir_at device key_path (commit_upgraded_key device true key_path pending_boot).1)
              keymaster_key_blob
            ≡ some (codes "new")))
commit_upgraded_key_durable_example = commit_upgraded_key_durable device true key_path pending_boot

retrieve_all-keeps_old_keys_example :
    file_at faulty key_path keymaster_key_blob
      (retrieve_all faulty ((key_path, keystore_auth) ∷ []) pending_boot)
    ≡ some (codes "old")
unfolding needs_checkpoint
retrieve_all-keeps_old_keys_example =
    retrieve_all-keeps_old_keys faulty ((key_path, keystore_auth) ∷ []) key_path pending_boot refl

store_key_atomically-IsWhole_example :
    (dir_at faulty key_path
        (store_key_atomically faulty key_path tmp_path keystore_auth (codes "key") first_boot).1
      ≡ none)
    ⊎ IsWhole (
        dir_at faulty key_path
          (store_key_atomically faulty key_path tmp_path keystore_auth (codes "key") first_boot).1)
store_key_atomically-IsWhole_example =
    store_key_atomically-IsWhole faulty key_path tmp_path keystore_auth (codes "key") first_boot
      refl refl

store_key_atomically-retrieve_key_example :
    ((store_key_atomically
        (healthy device)
        key_path
        tmp_path
        keystore_auth
        (codes "key")
        first_boot).0
      ≡ some tt)
    × ((retrieve_key
          (healthy device)
          key_path
          keystore_auth
          (store_key_atomically
            (healthy device)
            key_path
            tmp_path
            keystore_auth
            (codes "key")
            first_boot).1).0
        ≡ some (codes "key"))
store_key_atomically-retrieve_key_example =
    store_key_atomically-retrieve_key device key_path tmp_path keystore_auth (codes "key")
      first_boot device-IsSealing device-IsKeystore refl refl refl refl

-- More than a call of `update` takes.
abbrev long_input : Text
long_input = zeros 40000

update_completely-output_example :
    update_completely (healthy device) (operation none (encrypt [])) long_input first_boot ≡ (
      some ((encrypt-Streams []).output [] long_input),
      record first_boot { clock = (length long_input + 32767) / 32768 },
    )
update_completely-output_example =
    update_completely-output device (operation none (encrypt [])) (encrypt-Streams []) long_input
      first_boot

abbrev wrapped_gen : KeyGeneration
wrapped_gen = record { keysize = 64; allow_gen = true; use_hw_wrapped_key = true }

retrieve_or_generate_key_again_example :
    (key : Text) × ((retrieve_or_generate_key
        (healthy device)
        key_path
        tmp_path
        secret_auth
        wrapped_gen
        first_boot).0
      ≡ some key)
    × ((retrieve_or_generate_key
          (healthy device)
          key_path
          tmp_path
          secret_auth
          wrapped_gen
          (retrieve_or_generate_key
            (healthy device)
            key_path
            tmp_path
            secret_auth
            wrapped_gen
            first_boot).1).0
        ≡ some key)
retrieve_or_generate_key_again_example =
    retrieve_or_generate_key_again device key_path tmp_path secret_auth wrapped_gen wrapped_gen
      first_boot device-IsSealing device-IsKeystore refl refl refl refl refl

-- A kernel whose file system stays busy for two rounds of the cleanup.
abbrev computed : KeySpecifier → Option KeySpecifier
computed (descriptor d) = some (descriptor d)
computed (identifier i) = some (identifier (zeros 16))

abbrev busy_at : ℕ → Bool
busy_at zero = true
busy_at (suc zero) = true
busy_at (suc (suc n)) = false

abbrev kernel : Kernel
kernel = record {
  opens = λ mountpoint. true;
  adds = λ mountpoint hw spec raw. computed spec;
  removes = λ mountpoint spec. some (record { other_users = false; files_busy = true });
  incompletely_removed = λ round mountpoint spec. some true;
  removes_again =
      λ round mountpoint spec. some (record { other_users = false; files_busy = busy_at round });
}

some_injective : (s t : KeySpecifier) → some t ≡ some s → s ≡ t
some_injective s t e = cc

kernel-IsKernel : IsKernel device kernel
kernel-IsKernel = record {
  keeps_descriptor = λ m hw d raw s e. some_injective s (descriptor d) e;
  computes_identifier =
      λ m hw i raw s e. (zeros 16, some_injective s (identifier (zeros 16)) e, refl);
  digest_size = λ t. resize_size 64 t;
}

abbrev v1 : EncryptionOptions
v1 = record { policy_version = 1; use_hw_wrapped = false }

abbrev no_policy : EncryptionPolicy
no_policy = record { options = v1; key_raw_ref = [] }

v1_installed : (install_key device kernel (codes "/data") v1 (codes "key") no_policy).0 ≡ true
unfolding install_key requested build_key_specifier generate_key_ref with_identifier resize
v1_installed = refl

install_key-build_key_specifier_example :
    build_key_specifier (install_key device kernel (codes "/data") v1 (codes "key") no_policy).1
    ≡ installed_as device kernel (codes "/data") v1 (codes "key") no_policy
install_key-build_key_specifier_example =
    install_key-build_key_specifier device kernel kernel-IsKernel (codes "/data") v1 (codes "key")
      no_policy v1_installed

third_round :
    cleanup_round kernel (codes "/data") (descriptor (codes "ref")) 2 22400
    ≡ some (cleaned_up 22400)
unfolding cleanup_round
third_round = refl

two_rounds : all_go_on kernel (codes "/data") (descriptor (codes "ref")) 2 ≡ true
unfolding cleanup_round
two_rounds = refl

wait_for_busy_files_ends_example :
    wait_for_busy_files kernel (codes "/data") (descriptor (codes "ref")) ≡ cleaned_up 22400
wait_for_busy_files_ends_example =
    wait_for_busy_files_ends kernel (codes "/data") (descriptor (codes "ref")) (cleaned_up 22400)
      refl (inl (2, omega arith, two_rounds, third_round))
