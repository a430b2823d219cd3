-- ===== src/Keys/Pending/Calls.antt =====
-- KeyStorage.cpp: the list of key directories under the calls that change the files.
use platform_system_vold.Base.{
  ◌≡◌, sym, Bool, false, List, Option, Text, Bool-cases, Option-cases, inl, inr,
}
use platform_system_vold.Keys.Keeps.{Keeps, keeps_rules}
use platform_system_vold.Keys.Quiet.{
  needed, IsOfFiles, call_quiet, read_file_to_string_quiet, delete_key_quiet, delete_leftover_quiet,
}
use platform_system_vold.Keys.World.{KeyFile, keymaster_key_blob_upgraded, same_name, System, World}
use platform_system_vold.Keys.Calls.{
  dir_at, set_file, in_dir, with_file, write_string_to_file, unlink_file, fsync_directory,
  make_dir_now, make_dir, secdiscard, recursive_delete_key, sync_entries,
}
use platform_system_vold.Keys.Upgrades.{
  moved_blob, rename_blob_now, rename_blob, commit_upgraded_key, delete_upgraded_key, current_blob,
}
use platform_system_vold.Keys.Pending.Lists.{has_upgraded}
use platform_system_vold.Keys.Pending.States.{
  IsSound, IsUnlisted, set_dir-IsUnlisted, keep_dir-IsSound, make_dir-IsSound,
  with_file-has_upgraded, sync_entries-has_upgraded,
}

module _ (sys : System) where
  pub same-IsSound :
      (v w : World)
      → v.dirs ≡ w.dirs
      → v.key_dirs_to_commit ≡ w.key_dirs_to_commit
      → needed sys v ≡ needed sys w
      → IsSound sys v
      → IsSound sys w
  same-IsSound v w d k n s = record {
    distinct = rw (sym k) s.distinct;
    upgraded = rw (sym d, sym k) s.upgraded;
  }

  pub IsSound-IsOfFiles : IsOfFiles sys (IsSound sys)
  IsSound-IsOfFiles = record { same = same-IsSound }

  same-IsUnlisted :
      (dir : Text) (v w : World)
      → v.dirs ≡ w.dirs
      → v.key_dirs_to_commit ≡ w.key_dirs_to_commit
      → needed sys v ≡ needed sys w
      → IsUnlisted sys dir v
      → IsUnlisted sys dir w
  same-IsUnlisted dir v w d k n u = record {
    sound = same-IsSound v w d k n u.sound;
    unlisted = rw (sym k) u.unlisted;
  }

  pub IsUnlisted-IsOfFiles : (dir : Text) → IsOfFiles sys (IsUnlisted sys dir)
  IsUnlisted-IsOfFiles dir = record { same = same-IsUnlisted dir }

  set_file-IsSound :
      (dir : Text) (f : KeyFile)
      → same_name f keymaster_key_blob_upgraded ≡ false
      → (content : Option Text) (w : World) → IsSound sys w
      → IsSound sys (set_file sys dir f content w)
  set_file-IsSound dir f other content w s =
      keep_dir-IsSound sys dir w (in_dir (with_file f content) (dir_at sys dir w))
        (with_file-has_upgraded f content (dir_at sys dir w) other) s

  pub write_string_to_file-IsSound :
      (s dir : Text) (f : KeyFile)
      → same_name f keymaster_key_blob_upgraded ≡ false
      → Keeps (IsSound sys) (write_string_to_file sys s dir f)
  unfolding write_string_to_file
  write_string_to_file-IsSound s dir f other =
      search (keeps_rules, call_quiet, IsSound-IsOfFiles, set_file-IsSound) depth 30

  pub fsync_directory-IsSound : (dir : Text) → Keeps (IsSound sys) (fsync_directory sys dir)
  unfolding fsync_directory
  fsync_directory-IsSound dir =
      search
        (
          keeps_rules,
          call_quiet,
          IsSound-IsOfFiles,
          λ (w : World).
              keep_dir-IsSound sys dir w (sync_entries (dir_at sys dir w))
                (sync_entries-has_upgraded (dir_at sys dir w)),
        )
        depth 30

  make_dir_now-IsSound : (dir : Text) → Keeps (IsSound sys) (make_dir_now sys dir)
  unfolding make_dir_now
  make_dir_now-IsSound dir = record {
    kept = λ w s. elim (Option-cases (dir_at sys dir w)) [
      | inl e ↦ rw e (make_dir-IsSound sys dir w e s)
      | inr (d, e) ↦ rw e s
    ];
  }

  pub make_dir-Keeps : (dir : Text) → Keeps (IsSound sys) (make_dir sys dir)
  unfolding make_dir
  make_dir-Keeps dir =
      search (keeps_rules, call_quiet, IsSound-IsOfFiles, make_dir_now-IsSound) depth 30

-- The directory is not listed.
module _ (sys : System) (dir : Text) where
  pub write_string_to_file-IsUnlisted :
      (s : Text) (f : KeyFile) → Keeps (IsUnlisted sys dir) (write_string_to_file sys s dir f)
  unfolding write_string_to_file
  write_string_to_file-IsUnlisted s f =
      search (keeps_rules, call_quiet, IsUnlisted-IsOfFiles, set_dir-IsUnlisted) depth 30

  unlink_file-IsUnlisted : (f : KeyFile) → Keeps (IsUnlisted sys dir) (unlink_file sys dir f)
  unfolding unlink_file
  unlink_file-IsUnlisted f =
      search (keeps_rules, call_quiet, IsUnlisted-IsOfFiles, set_dir-IsUnlisted) depth 30

  fsync_directory-IsUnlisted : Keeps (IsUnlisted sys dir) (fsync_directory sys dir)
  unfolding fsync_directory
  fsync_directory-IsUnlisted =
      search (keeps_rules, call_quiet, IsUnlisted-IsOfFiles, set_dir-IsUnlisted) depth 30

  pub secdiscard-IsUnlisted :
      (fs : List KeyFile) → Keeps (IsUnlisted sys dir) (secdiscard sys dir fs)
  unfolding secdiscard
  secdiscard-IsUnlisted fs =
      search (keeps_rules, call_quiet, IsUnlisted-IsOfFiles, set_dir-IsUnlisted) depth 30

  pub recursive_delete_key-IsUnlisted : Keeps (IsUnlisted sys dir) (recursive_delete_key sys dir)
  unfolding recursive_delete_key
  recursive_delete_key-IsUnlisted =
      search (keeps_rules, call_quiet, IsUnlisted-IsOfFiles, set_dir-IsUnlisted) depth 30

  rename_blob_now-IsUnlisted : Keeps (IsUnlisted sys dir) (rename_blob_now sys dir)
  unfolding rename_blob_now
  rename_blob_now-IsUnlisted = record {
    kept = λ w u. elim (Bool-cases (has_upgraded (dir_at sys dir w))) [
      | inl e ↦ rw e (set_dir-IsUnlisted sys dir w (in_dir moved_blob (dir_at sys dir w)) u)
      | inr e ↦ rw e u
    ];
  }

  rename_blob-IsUnlisted : Keeps (IsUnlisted sys dir) (rename_blob sys dir)
  unfolding rename_blob
  rename_blob-IsUnlisted =
      search (keeps_rules, call_quiet, IsUnlisted-IsOfFiles, rename_blob_now-IsUnlisted) depth 30

  pub commit_upgraded_key-IsUnlisted :
      (keystore : Bool) → Keeps (IsUnlisted sys dir) (commit_upgraded_key sys keystore dir)
  unfolding commit_upgraded_key
  commit_upgraded_key-IsUnlisted keystore =
      search
        (
          keeps_rules, read_file_to_string_quiet, delete_key_quiet, IsUnlisted-IsOfFiles,
          rename_blob-IsUnlisted, fsync_directory-IsUnlisted,
        )
        depth 30

  delete_upgraded_key-IsUnlisted : Keeps (IsUnlisted sys dir) (delete_upgraded_key sys dir)
  unfolding delete_upgraded_key
  delete_upgraded_key-IsUnlisted =
      search (keeps_rules, delete_leftover_quiet, IsUnlisted-IsOfFiles, unlink_file-IsUnlisted)
        depth 30

  pub current_blob-IsUnlisted : Keeps (IsUnlisted sys dir) (current_blob sys false dir)
  unfolding current_blob
  current_blob-IsUnlisted =
      search
        (
          keeps_rules, read_file_to_string_quiet, IsUnlisted-IsOfFiles,
          delete_upgraded_key-IsUnlisted,
        )
        depth 30
