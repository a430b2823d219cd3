-- ===== src/Keys/Operations.antt =====
-- KeyStorage.h: the operations that the rest of vold calls, in any order.
use platform_system_vold.Base.{List, [], ◌∷◌, Text}
use platform_system_vold.Keys.Act.{Act, ◌>>=◌, pure}
use platform_system_vold.Keys.Keeps.{Keeps}
use platform_system_vold.Keys.World.{System, World, KeyAuthentication}
use platform_system_vold.Keys.Upgrades.{deferred_commit_keystore_keys, rename_key_dir}
use platform_system_vold.Keys.Storage.{
  set_key_storage_binding_seed, generate_wrapped_storage_key, export_wrapped_storage_key,
  retrieve_key, destroy_key, store_key_atomically,
}

pub data KeyOp : Type 0 where
  store_atomically : (key_path tmp_path : Text) → KeyAuthentication → (key : Text) → KeyOp
  retrieve : (dir : Text) → KeyAuthentication → KeyOp
  destroy : (dir : Text) → KeyOp
  rename : (old_name new_name : Text) → KeyOp
  commit_deferred generate_wrapped : KeyOp
  export_wrapped : (ks_key : Text) → KeyOp
  bind_seed : (seed : Text) → KeyOp

-- The call, with its result left out.
unfoldable pub perform : System → KeyOp → Act World (Unit {0})
perform sys (store_atomically key_path tmp_path auth key) =
    store_key_atomically sys key_path tmp_path auth key
perform sys (retrieve dir auth) = do key ← retrieve_key sys dir auth; pure tt
perform sys (destroy dir) = destroy_key sys dir
perform sys (rename old_name new_name) = rename_key_dir sys old_name new_name
perform sys commit_deferred = deferred_commit_keystore_keys sys
perform sys generate_wrapped = do key ← generate_wrapped_storage_key sys; pure tt
perform sys (export_wrapped ks_key) = do key ← export_wrapped_storage_key sys ks_key; pure tt
perform sys (bind_seed seed) = set_key_storage_binding_seed seed

-- The state after a sequence of calls, each of which may fail.
unfoldable pub run : System → List KeyOp → World → World
run sys [] w = w
run sys (op ∷ ops) w = run sys ops (perform sys op w).1

module _ (sys : System) {P : World → Type 0} (kept : (op : KeyOp) → Keeps P (perform sys op)) where
  pub run_induction : (ops : List KeyOp) (w : World) → P w → P (run sys ops w)
  unfolding run
  run_induction [] w h = h
  run_induction (op ∷ ops) w h = run_induction ops (perform sys op w).1 ((kept op).kept w h)
