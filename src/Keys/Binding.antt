-- ===== src/Keys/Binding.antt =====
-- KeyStorage.cpp: the seed that keys are bound to.
mod Calls
mod Storage
use platform_system_vold.Base.{◌≡◌, refl, sym, ap, ◌∙◌, ◌++◌, true, List, none, some, Text, arith}
use platform_system_vold.Keys.World.{
  uninitialized, in_use, not_used, StorageBindingInfo, System, World, KeyAuthentication,
}
use platform_system_vold.Keys.Storage.{bound_app_id, generate_app_id, set_key_storage_binding_seed}
use platform_system_vold.Keys.Operations.{KeyOp, run}
use Storage.{is_set, run-Bound}

bound_app_id_set : (id : Text) (info : StorageBindingInfo) → is_set (bound_app_id id info).1 ≡ true
unfolding bound_app_id
bound_app_id_set id info = ground arith

-- A second id is made as the first was.
pub bound_app_id_twice :
    (id : Text) (info : StorageBindingInfo)
    → (bound_app_id id (bound_app_id id info).1).0 ≡ (bound_app_id id info).0
unfolding bound_app_id
bound_app_id_twice id info = ground arith

set_seed_refused :
    (seed : Text) (w : World)
    → is_set w.storage_binding_info ≡ true
    → set_key_storage_binding_seed seed w ≡ (none, w)
unfolding set_key_storage_binding_seed
set_seed_refused seed w set = ground arith

-- Once the id of a key has been made, and whatever calls follow, with whatever failures: the same
-- secret and hash give the same id, and a seed is refused and changes nothing.
pub generate_app_id_stable :
    (sys : System) (auth : KeyAuthentication) (hash seed : Text) (ops : List KeyOp) (w : World)
    → ((generate_app_id auth hash (run sys ops (generate_app_id auth hash w).1)).0
        ≡ (generate_app_id auth hash w).0)
      × (set_key_storage_binding_seed seed (run sys ops (generate_app_id auth hash w).1)
          ≡ (none, run sys ops (generate_app_id auth hash w).1))
unfolding generate_app_id
generate_app_id_stable sys auth hash seed ops w =
    let id : Text = hash ++ auth.secret in
    let info = (bound_app_id id w.storage_binding_info).1 in
    let set = bound_app_id_set id w.storage_binding_info in
    let after = run sys ops (generate_app_id auth hash w).1 in
    let same = run-Bound sys info set ops (generate_app_id auth hash w).1 refl in
    (
      ap some (
          ap (λ (i : StorageBindingInfo). (bound_app_id id i).0) same
          ∙ bound_app_id_twice id w.storage_binding_info),
      set_seed_refused seed after (ap is_set same ∙ set),
    )
