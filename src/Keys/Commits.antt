-- ===== src/Keys/Commits.antt =====
-- KeyStorage.cpp: when the old key of an upgrade is deleted from Keystore.
use platform_system_vold.Base.{
  ◌≡◌, ◌⊎◌, Bool, List, ◌∷◌, Option, none, some, arith, Text, text_eq_refl,
}
use platform_system_vold.Keys.Act.{◌>>=◌, pure, reads, finds, modifies, succeeds, require}
use platform_system_vold.Keys.World.{
  keymaster_key_blob, keymaster_key_blob_upgraded, KeyFile, Dir, System, World,
}
use platform_system_vold.Keys.Calls.{call, dir_at, file_at, read_file_to_string, fsync_directory}
use platform_system_vold.Keys.Upgrades.{
  rename_blob_now, rename_blob, delete_key, commit_upgraded_key,
}

-- What a power loss leaves of a file.
abbrev pub durable_in : Option Dir → KeyFile → Option Text
durable_in none f = none
durable_in (some d) f = d.durable f

abbrev pub deleting : Option Text → List Text → List Text
deleting none keys = keys
deleting (some key) keys = key ∷ keys

-- Whatever fails in a commit: either no key is deleted from Keystore, or the one that is deleted is
-- the directory's old key, and the upgraded key has durably taken its place.
pub commit_upgraded_key_durable :
    (sys : System) (keystore : Bool) (dir : Text) (w : World)
    → let t = (commit_upgraded_key sys keystore dir w).1 in
      (t.deleted ≡ w.deleted)
      ⊎ ((t.deleted ≡ deleting (file_at sys dir keymaster_key_blob w) w.deleted)
          × (durable_in (dir_at sys dir t) keymaster_key_blob
              ≡ file_at sys dir keymaster_key_blob_upgraded w))
unfolding commit_upgraded_key read_file_to_string call rename_blob rename_blob_now fsync_directory
    delete_key ◌>>=◌ reads finds modifies succeeds require pure
commit_upgraded_key_durable sys keystore dir w =
    let refl' = text_eq_refl (sys.canonical dir) in ground arith
