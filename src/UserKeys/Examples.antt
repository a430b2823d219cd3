-- ===== src/UserKeys/Examples.antt =====
-- Paths and operations on users' keys, and the theorems about them at these inputs.
use platform_system_vold.Base.{
  ◌≡◌, refl, ◌⊎◌, true, false, List, [], ◌∷◌, ◌++◌, none, some, any, Text, codes, text_eq, print_ℕ,
  print_loop, if◌then◌else◌, ◌||◌, ltb,
}
use platform_system_vold.Checkpoint.Control.Types.{Cp, booted}
use platform_system_vold.Checkpoint.Control.Counter.{needs_checkpoint}
use platform_system_vold.Keys.World.{Dir, uninitialized, System, World}
use platform_system_vold.Keys.Calls.{dir_at}
use platform_system_vold.Keys.Keeps.{Post}
use platform_system_vold.Keys.Install.{Kernel}
use platform_system_vold.Keys.Device.{system, device}
use platform_system_vold.UserKeys.Users.{Fbe, Users}
use platform_system_vold.UserKeys.Fixation.{fixate_user_ce_key}
use platform_system_vold.UserKeys.Protection.{fscrypt_set_ce_key_protection}
use platform_system_vold.UserKeys.Kept.{fixate_user_ce_key_holds}
use platform_system_vold.UserKeys.Deferral.{Defers, fscrypt_set_ce_key_protection-Defers}
use platform_system_vold.UserKeys.Paths.{
  get_ce_key_current_path, Entry, get_ce_key_paths, get_ce_key_new_path, find_candidate, candidate,
  text_lt, newest_first, put_newest, key_paths,
}
use platform_system_vold.UserKeys.Newest.{key_entry, get_ce_key_new_path_newest}

abbrev user_dir : Text
user_dir = codes "/ce/10"

abbrev entries : List Entry
entries = key_entry (codes "current") ∷ []

abbrev later : List Entry
later = key_entry (codes "cx0000000000") ∷ record { is_dir = false; d_name = codes "c" } ∷ []

next_path :
    get_ce_key_new_path user_dir (get_ce_key_paths user_dir (some (entries ++ later)))
    ≡ some (codes "/ce/10/cx0000000001")
unfolding get_ce_key_new_path get_ce_key_paths find_candidate candidate text_lt newest_first
    put_newest key_paths print_ℕ print_loop
next_path = refl

get_ce_key_new_path_newest_example :
    (name : Text) × (codes "/ce/10/cx0000000001" ≡ user_dir ++ (b'/' ∷ name))
    × (any
          (text_eq (codes "/ce/10/cx0000000001"))
          (get_ce_key_paths user_dir (some (entries ++ later)))
        ≡ false)
    × (get_ce_key_paths user_dir (some (entries ++ (key_entry name ∷ later)))
        ≡ codes "/ce/10/cx0000000001" ∷ get_ce_key_paths user_dir (some (entries ++ later)))
get_ce_key_new_path_newest_example =
    get_ce_key_new_path_newest user_dir (codes "/ce/10/cx0000000001") entries later next_path

abbrev key_dir : Dir
key_dir = record { now = λ f. some (codes "1"); durable = λ f. some (codes "1") }

abbrev checkpointing : Cp
checkpointing = record (booted (some (codes "3"))) {
  is_checkpointing = true;
  needs_checkpoint_was_called = true;
}

-- A user with two keys, while a checkpoint is needed.
abbrev keys : World
keys = record {
  clock = 0;
  dirs = λ path.
      if text_eq path (codes "/ce/10/current") || text_eq path (codes "/ce/10/cx0000000000")
      then some key_dir
      else none;
  key_dirs_to_commit = [];
  storage_binding_info = record { seed = []; state = uninitialized };
  seed_bound_property = false;
  deleted = [];
  cp = checkpointing;
}

abbrev user_paths : List Text
user_paths = codes "/ce/10/cx0000000000" ∷ codes "/ce/10/current" ∷ []

-- Each call from the fifth on fails.
abbrev fails_late : System
fails_late = system (λ n. ltb n 5) none

fixate_user_ce_key_holds_example :
    Post
      (λ t. dir_at fails_late (get_ce_key_current_path user_dir) t ≡ some key_dir)
      (λ t.
        (dir_at fails_late (codes "/ce/10/cx0000000000") t ≡ some key_dir)
        ⊎ (dir_at fails_late (get_ce_key_current_path user_dir) t ≡ some key_dir))
      (fixate_user_ce_key fails_late user_dir (codes "/ce/10/cx0000000000") user_paths keys)
fixate_user_ce_key_holds_example =
    fixate_user_ce_key_holds fails_late user_dir (codes "/ce/10/cx0000000000") user_paths key_dir
      keys refl refl

abbrev kernel : Kernel
kernel = record {
  opens = λ mountpoint. true;
  adds = λ mountpoint hw spec raw. some spec;
  removes = λ mountpoint spec. none;
  incompletely_removed = λ round mountpoint spec. none;
  removes_again = λ round mountpoint spec. none;
}

abbrev fbe : Fbe
fbe = record {
  sys = device;
  kernel = kernel;
  is_fbe_enabled = true;
  readdir = λ call path w. some entries;
}

abbrev users : Users
users = record {
  world = keys;
  data_options = none;
  ephemeral_users = 12 ∷ [];
  new_ce_keys = (10, codes "key") ∷ [];
  deferred_fixations = [];
  ce_policies = [];
}

fscrypt_set_ce_key_protection-Defers_example :
    Defers fbe 10
      (codes "/ce/10/current")
      key_dir
      users
      (fscrypt_set_ce_key_protection fbe 10 (codes "secret") users)
unfolding needs_checkpoint
fscrypt_set_ce_key_protection-Defers_example =
    fscrypt_set_ce_key_protection-Defers fbe 10 (codes "secret") (codes "key")
      (codes "/ce/10/current") key_dir users refl refl refl refl refl refl
