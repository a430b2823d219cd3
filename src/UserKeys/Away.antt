-- ===== src/UserKeys/Away.antt =====
-- KeyStorage.cpp: the calls on a directory, and what is true elsewhere.
use platform_system_vold.Base.{List, Option, Text, Bool-cases, inl, inr}
use platform_system_vold.Keys.Keeps.{Keeps, keeps_rules}
use platform_system_vold.Keys.Quiet.{
  IsOfFiles, call_quiet, destroy_blobs_quiet, generate_app_id_quiet,
}
use platform_system_vold.Keys.World.{KeyFile, Dir, System, World, KeyAuthentication}
use platform_system_vold.Keys.Calls.{
  set_dir, path_exists, make_dir_now, make_dir, write_string_to_file, secdiscard,
  recursive_delete_key,
}
use platform_system_vold.Keys.Upgrades.{cancel_pending_key_commit}
use platform_system_vold.Keys.Storage.{destroy_files, destroy_key, store_key}
use platform_system_vold.Keys.Atomic.Local.{IsLocal, create_local, wrap_local, sync_local}

-- A predicate that any change of one directory keeps.
pub record IsAway (sys : System) (other : Text) (P : World → Type 0) : Type 0 where
  pub of_files : IsOfFiles sys P
  pub sets : (c : Option Dir) (w : World) → P w → P (set_dir sys other c w)
  pub lists : (ps : List Text) (w : World) → P w → P (record w { key_dirs_to_commit = ps })

module _ (sys : System) (other : Text) {P : World → Type 0} (away : IsAway sys other P) where
  files : IsOfFiles sys P
  files = away.of_files

  set_away : (c : Option Dir) (w : World) → P w → P (set_dir sys other c w)
  set_away = away.sets

  lists_away : (ps : List Text) (w : World) → P w → P (record w { key_dirs_to_commit = ps })
  lists_away = away.lists

  local : IsLocal sys other P
  local = record {
    of_files = away.of_files;
    sets = λ f content w other_file h. away.sets _ w h;
    moves = λ w h. away.sets _ w h;
    syncs = λ w h. away.sets _ w h;
    lists = away.lists;
  }

  cancel_away : Keeps P (cancel_pending_key_commit sys other)
  unfolding cancel_pending_key_commit
  cancel_away = search (keeps_rules, lists_away) depth 10

  secdiscard_away : (fs : List KeyFile) → Keeps P (secdiscard sys other fs)
  unfolding secdiscard
  secdiscard_away fs = search (keeps_rules, call_quiet, files, set_away) depth 30

  remove_away : Keeps P (recursive_delete_key sys other)
  unfolding recursive_delete_key
  remove_away = search (keeps_rules, call_quiet, files, set_away) depth 30

  pub destroy_key_away : Keeps P (destroy_key sys other)
  unfolding destroy_key destroy_files
  destroy_key_away =
      search (keeps_rules, cancel_away, destroy_blobs_quiet, files, secdiscard_away, remove_away)
        depth 30

  make_dir_now_away : Keeps P (make_dir_now sys other)
  unfolding make_dir_now
  make_dir_now_away = record {
    kept = λ w h. elim (Bool-cases (path_exists sys other w)) [
      | inl e ↦ rw e h
      | inr e ↦ rw e (away.sets _ w h)
    ];
  }

  make_dir_away : Keeps P (make_dir sys other)
  unfolding make_dir
  make_dir_away = search (keeps_rules, call_quiet, files, make_dir_now_away) depth 30

  write_away : (s : Text) (f : KeyFile) → Keeps P (write_string_to_file sys s other f)
  unfolding write_string_to_file
  write_away s f = search (keeps_rules, call_quiet, files, set_away) depth 30

  pub store_key_away :
      (auth : KeyAuthentication) (key : Text) → Keeps P (store_key sys other auth key)
  unfolding store_key
  store_key_away auth key =
      search
        (
          keeps_rules, make_dir_away, write_away, create_local, local, generate_app_id_quiet, files,
          wrap_local, sync_local,
        )
        depth 30
