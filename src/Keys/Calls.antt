-- ===== src/Keys/Calls.antt =====
-- The calls that Utils.cpp, Keystore.cpp and KeyStorage.cpp make outside the process: files and
-- directories, random bytes, external programs.
use platform_system_vold.Base.{
  ℕ, suc, Bool, true, not, ◌&&◌, ◌||◌, List, Option, none, some, if◌then◌else◌, Text, text_eq, any,
}
use platform_system_vold.Keys.Act.{
  Act, pure, fail, reads, finds, ◌>>=◌, ◌>>◌, modifies, succeeds, require, is_some,
}
use platform_system_vold.Keys.World.{
  KeyFile, encrypted_key, keymaster_key_blob, keymaster_key_blob_upgraded, secdiscardable, version,
  same_name, Files, Dir, empty_dir, System, World,
}

-- An entry of a directory is set.
abbrev pub with_file : KeyFile → Option Text → Files → Files
with_file f content files g = if same_name f g then content else files g

abbrev pub has_no_files : Dir → Bool
has_no_files d = not (
    is_some (d.now encrypted_key)
    || (is_some (d.now keymaster_key_blob)
        || (is_some (d.now keymaster_key_blob_upgraded)
            || (is_some (d.now secdiscardable) || is_some (d.now version)))))

abbrev pub content_of : Option Dir → KeyFile → Option Text
content_of none f = none
content_of (some d) f = d.now f

abbrev pub less_files : List KeyFile → Files → Files
less_files names files g = if any (λ f. same_name f g) names then none else files g

-- What the processes see of a directory is changed.
abbrev pub in_dir : (Files → Files) → Option Dir → Option Dir
in_dir change none = none
in_dir change (some d) = some (record d { now = change d.now })

-- The entries of a directory become durable.
abbrev pub sync_entries : Option Dir → Option Dir
sync_entries none = none
sync_entries (some d) = some (record d { durable = d.now })

-- A name that a directory can take.
abbrev pub is_free : Option Dir → Bool
is_free none = true
is_free (some d) = has_no_files d

module _ (sys : System) where
  -- A call of the outside that succeeds or fails.
  unfoldable pub call : Act World (Unit {0})
  unfolding require
  call w = (require (sys.works w.clock) (record w { clock = suc w.clock }))

  abbrev pub dir_at : Text → World → Option Dir
  dir_at path w = w.dirs (sys.canonical path)

  abbrev pub file_at : Text → KeyFile → World → Option Text
  file_at path f w = content_of (dir_at path w) f

  abbrev pub path_exists : Text → World → Bool
  path_exists path w = is_some (dir_at path w)

  abbrev pub file_exists : Text → KeyFile → World → Bool
  file_exists path f w = is_some (file_at path f w)

  -- `IsSameFile`.
  abbrev pub is_same_file : Text → Text → World → Bool
  is_same_file path1 path2 w =
      path_exists path1 w
      && (path_exists path2 w && text_eq (sys.canonical path1) (sys.canonical path2))

  abbrev pub set_dir : Text → Option Dir → World → World
  set_dir path d w = record w { dirs = λ p. if text_eq p (sys.canonical path) then d else w.dirs p }

  -- The entry `f` of a directory, where that is there.
  abbrev pub set_file : Text → KeyFile → Option Text → World → World
  set_file path f content w = set_dir path (in_dir (with_file f content) (dir_at path w)) w

  unfoldable pub read_file_to_string : Text → KeyFile → Act World Text
  read_file_to_string path f = do call; finds (file_at path f)

  -- `writeStringToFile`: the file is opened, written and synced; after a failure it is unlinked.
  unfoldable pub write_string_to_file : (payload : Text) → Text → KeyFile → Act World (Unit {0})
  write_string_to_file payload path f = do
    call
    there ← reads (path_exists path)
    require there
    written ← succeeds (do call; call)
    if written then modifies (set_file path f (some payload)) else do
      left ← reads (λ w. sys.remnant w.clock)
      unlinked ← succeeds call
      modifies (set_file path f (if unlinked then none else left))
      fail

  unfoldable pub unlink_file : Text → KeyFile → Act World (Unit {0})
  unlink_file path f = do call; modifies (set_file path f none)

  unfoldable pub make_dir_now : Text → Act World (Unit {0})
  make_dir_now path w =
      if path_exists path w then (none, w) else (some tt, set_dir path (some empty_dir) w)

  -- mkdir(2).
  unfoldable pub make_dir : Text → Act World (Unit {0})
  make_dir path = do call; make_dir_now path

  -- `FsyncDirectory`: the directory is opened and synced.
  unfoldable pub fsync_directory : Text → Act World (Unit {0})
  fsync_directory path = do
    call
    there ← reads (path_exists path)
    require there
    call
    modifies (λ w. set_dir path (sync_entries (dir_at path w)) w)

  unfoldable pub fsync_parent_directory : Text → Act World (Unit {0})
  fsync_parent_directory path = do call; call

  abbrev pub move_dir : (old_name new_name : Text) → World → World
  move_dir old_name new_name w = set_dir new_name (dir_at old_name w) (set_dir old_name none w)

  abbrev pub can_move : (old_name new_name : Text) → World → Bool
  can_move old_name new_name w = path_exists old_name w && is_free (dir_at new_name w)

  unfoldable pub rename_now : (old_name new_name : Text) → Act World (Unit {0})
  rename_now old_name new_name w =
      if text_eq (sys.canonical old_name) (sys.canonical new_name)
      then (if path_exists old_name w then some tt else none, w)
      else if can_move old_name new_name w
      then (some tt, move_dir old_name new_name w)
      else (none, w)

  -- rename(2) of a directory. A name in use is replaced where its directory is empty, and nothing
  -- happens where the two names are one.
  unfoldable pub rename_dir : (old_name new_name : Text) → Act World (Unit {0})
  rename_dir old_name new_name = do call; rename_now old_name new_name

  unfoldable pub read_random_bytes : (count : ℕ) → Act World Text
  read_random_bytes count = do n ← reads (λ w. w.clock); call; pure (sys.random n count)

  abbrev pub after_discard : (call : ℕ) → (ended : Bool) → List KeyFile → Files → Files
  after_discard n ended names files =
      if ended then less_files names files else sys.partly_discarded n files

  -- The program secdiscard: it overwrites and unlinks each file that it is given.
  unfoldable pub secdiscard : Text → List KeyFile → Act World (Unit {0})
  secdiscard path names = do
    n ← reads (λ w. w.clock)
    ended ← succeeds call
    modifies (λ w. set_dir path (in_dir (after_discard n ended names) (dir_at path w)) w)
    require ended

  abbrev pub after_removal : (call : ℕ) → (ended : Bool) → Option Dir → Option Dir
  after_removal n ended none = none
  after_removal n ended (some d) = if ended then none else sys.partly_removed n d

  -- The program rm with -rf.
  unfoldable pub recursive_delete_key : Text → Act World (Unit {0})
  recursive_delete_key path = do
    n ← reads (λ w. w.clock)
    ended ← succeeds call
    modifies (λ w. set_dir path (after_removal n ended (dir_at path w)) w)
    require ended
