-- ===== src/UserKeys/Fixation.antt =====
-- FsCrypt.cpp: all CE keys of a user but one are discarded, and that one takes the name `current`.
use platform_system_vold.Base.{Bool, true, false, ◌||◌, List, [], ◌∷◌, if◌then◌else◌, Text, text_eq}
use platform_system_vold.Keys.Act.{Act, pure, ◌>>=◌, ◌>>◌, succeeds}
use platform_system_vold.Keys.World.{System, World}
use platform_system_vold.Keys.Calls.{fsync_parent_directory}
use platform_system_vold.Keys.Upgrades.{rename_key_dir}
use platform_system_vold.Keys.Storage.{destroy_key}
use platform_system_vold.UserKeys.Paths.{get_ce_key_current_path}

module _ (sys : System) where
  -- All the paths but `to_fix` are destroyed, and whether there are any.
  unfoldable pub discard_others : (to_fix : Text) → List Text → Act World Bool
  discard_others to_fix [] = pure false
  discard_others to_fix (other_path ∷ paths) =
      if text_eq other_path to_fix then discard_others to_fix paths else do
        destroyed ← succeeds (destroy_key sys other_path)
        more ← discard_others to_fix paths
        pure true

  -- `to_fix` is renamed to the current path, and whether it has another name.
  unfoldable pub make_current : (directory_path to_fix : Text) → Act World Bool
  make_current directory_path to_fix =
      if text_eq to_fix (get_ce_key_current_path directory_path)
      then pure false
      else do rename_key_dir sys to_fix (get_ce_key_current_path directory_path); pure true

  -- `fixate_user_ce_key`. The directory that is synced is the parent of the current path.
  unfoldable pub fixate_user_ce_key :
      (directory_path to_fix : Text) (paths : List Text) → Act World (Unit {0})
  fixate_user_ce_key directory_path to_fix paths = do
    discarded ← discard_others to_fix paths
    renamed ← make_current directory_path to_fix
    if discarded || renamed
        then fsync_parent_directory sys (get_ce_key_current_path directory_path)
        else pure tt
