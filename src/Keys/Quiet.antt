-- ===== src/Keys/Quiet.antt =====
-- KeyStorage.cpp: calls that leave the directories and the list of pending commits as they are.
use platform_system_vold.Base.{
  ◌≡◌, refl, sym, ap, ℕ, zero, suc, ◌++◌, take, drop, ◌&&◌, arith, Bool, List, [], ◌∷◌, Text,
}
use platform_system_vold.Checkpoint.Control.Types.{Cp}
use platform_system_vold.Checkpoint.Control.Counter.{needs_checkpoint}
use platform_system_vold.Checkpoint.Control.Retries.{needs_checkpoint_stable}
use platform_system_vold.Keys.Act.{◌>>=◌, pure}
use platform_system_vold.Keys.Keeps.{Keeps, Keeps-bind, keeps_rules}
use platform_system_vold.Keys.World.{System, World, KeyFile, KeyAuthentication, Request, Operation}
use platform_system_vold.Keys.Calls.{
  call, read_file_to_string, fsync_parent_directory, read_random_bytes,
}
use platform_system_vold.Keys.Upgrades.{
  connects, delete_key, delete_leftover, keystore_begin, cp_needs_checkpoint, update_round,
  update_loop, update_completely, update_input_max_size, finish,
}
use platform_system_vold.Keys.Storage.{
  generate_app_id, set_key_storage_binding_seed, generate_key_storage_key,
  generate_wrapped_storage_key, export_wrapped_storage_key, read_secdiscardable,
  encrypt_without_keystore, decrypt_without_keystore, delete_keystore_key, destroy_blob,
  destroy_blobs,
}

seed_dirs : (seed : Text) (w : World) → w.dirs ≡ (set_key_storage_binding_seed seed w).1.dirs
unfolding set_key_storage_binding_seed
seed_dirs seed w = ground arith

seed_list :
    (seed : Text) (w : World)
    → w.key_dirs_to_commit ≡ (set_key_storage_binding_seed seed w).1.key_dirs_to_commit
unfolding set_key_storage_binding_seed
seed_list seed w = ground arith

-- What the process answers to `cp_needsCheckpoint`.
abbrev pub needed : System → World → Bool
needed sys w = (needs_checkpoint sys.cp_env w.cp).0

seed_needed :
    (sys : System) (seed : Text) (w : World)
    → needed sys w ≡ needed sys (set_key_storage_binding_seed seed w).1
unfolding set_key_storage_binding_seed
seed_needed sys seed w = ground arith

-- A predicate that looks at the directories, at the list of pending commits and at the answer to
-- `cp_needsCheckpoint`.
pub record IsOfFiles (sys : System) (P : World → Type 0) : Type 0 where
  pub same :
      (v w : World)
      → v.dirs ≡ w.dirs
      → v.key_dirs_to_commit ≡ w.key_dirs_to_commit
      → needed sys v ≡ needed sys w
      → P v
      → P w

module _ (sys : System) {P : World → Type 0} (of_files : IsOfFiles sys P) where
  pub call_quiet : Keeps P (call sys)
  unfolding call
  call_quiet = record { kept = λ w h. of_files.same w (call sys w).1 refl refl refl h }

  pub read_file_to_string_quiet :
      (dir : Text) (f : KeyFile) → Keeps P (read_file_to_string sys dir f)
  unfolding read_file_to_string
  read_file_to_string_quiet dir f = search (keeps_rules, call_quiet) depth 30

  pub fsync_parent_directory_quiet : (dir : Text) → Keeps P (fsync_parent_directory sys dir)
  unfolding fsync_parent_directory
  fsync_parent_directory_quiet dir = search (keeps_rules, call_quiet) depth 30

  pub read_random_bytes_quiet : (n : ℕ) → Keeps P (read_random_bytes sys n)
  unfolding read_random_bytes
  read_random_bytes_quiet n = search (keeps_rules, call_quiet) depth 30

  pub connects_quiet : Keeps P (connects sys)
  unfolding connects
  connects_quiet = search (keeps_rules, call_quiet) depth 30

  pub delete_key_quiet : (b : Text) → Keeps P (delete_key sys b)
  unfolding delete_key
  delete_key_quiet b =
      search
        (
          keeps_rules,
          call_quiet,
          λ (w : World). of_files.same w (record w { deleted = b ∷ w.deleted }) refl refl refl,
        )
        depth 30

  pub delete_leftover_quiet : (dir : Text) → Keeps P (delete_leftover sys dir)
  unfolding delete_leftover
  delete_leftover_quiet dir =
      search (keeps_rules, read_file_to_string_quiet, delete_key_quiet) depth 30

  pub keystore_begin_quiet : (b : Text) (r : Request) → Keeps P (keystore_begin sys b r)
  unfolding keystore_begin
  keystore_begin_quiet b r = search (keeps_rules, call_quiet) depth 30

  pub cp_needs_checkpoint_quiet : Keeps P (cp_needs_checkpoint sys)
  unfolding cp_needs_checkpoint
  cp_needs_checkpoint_quiet = record {
    kept = λ w h.
        of_files.same w (cp_needs_checkpoint sys w).1 refl refl
          (sym (ap (λ (x : Bool × Cp). x.0) (needs_checkpoint_stable sys.cp_env sys.cp_env w.cp)))
          h;
  }

  pub update_round_quiet : (op : Operation) (t s : Text) → Keeps P (update_round sys op t s)
  unfolding update_round
  update_round_quiet op t s = search (keeps_rules, call_quiet) depth 30

  pub update_loop_quiet : (n : ℕ) (op : Operation) (t s : Text) → Keeps P (update_loop sys n op t s)
  unfolding update_loop
  update_loop_quiet n op t [] = search keeps_rules
  update_loop_quiet zero op t (c ∷ s) = search keeps_rules
  update_loop_quiet (suc n) op t (c ∷ s) =
      let chunk : Text = take update_input_max_size (c ∷ s) in
      Keeps-bind (update_round sys op t chunk)
        (λ output.
          update_loop sys n op (t ++ chunk) (drop update_input_max_size (c ∷ s)) >>= λ rest.
          pure (output ++ rest))
        (update_round_quiet op t chunk) λ output. search (keeps_rules, update_loop_quiet n)

  pub update_completely_quiet : (op : Operation) (s : Text) → Keeps P (update_completely sys op s)
  unfolding update_completely
  update_completely_quiet op s = search (keeps_rules, update_loop_quiet) depth 30

  pub finish_quiet : (op : Operation) (s : Text) → Keeps P (finish sys op s)
  unfolding finish
  finish_quiet op s = search (keeps_rules, call_quiet) depth 30

  pub generate_app_id_quiet :
      (auth : KeyAuthentication) (hash : Text) → Keeps P (generate_app_id auth hash)
  unfolding generate_app_id
  generate_app_id_quiet auth hash = record {
    kept = λ w h. of_files.same w (generate_app_id auth hash w).1 refl refl refl h;
  }

  pub set_key_storage_binding_seed_quiet :
      (seed : Text) → Keeps P (set_key_storage_binding_seed seed)
  set_key_storage_binding_seed_quiet seed = record {
    kept = λ w h.
        of_files.same w (set_key_storage_binding_seed seed w).1 (seed_dirs seed w)
          (seed_list seed w) (seed_needed sys seed w) h;
  }

  pub generate_key_storage_key_quiet : (id : Text) → Keeps P (generate_key_storage_key sys id)
  unfolding generate_key_storage_key
  generate_key_storage_key_quiet id = search (keeps_rules, call_quiet) depth 30

  pub generate_wrapped_storage_key_quiet : Keeps P (generate_wrapped_storage_key sys)
  unfolding generate_wrapped_storage_key
  generate_wrapped_storage_key_quiet = search (keeps_rules, call_quiet, connects_quiet) depth 30

  pub export_wrapped_storage_key_quiet : (key : Text) → Keeps P (export_wrapped_storage_key sys key)
  unfolding export_wrapped_storage_key
  export_wrapped_storage_key_quiet key = search (keeps_rules, call_quiet, connects_quiet) depth 30

  pub read_secdiscardable_quiet : (dir : Text) → Keeps P (read_secdiscardable sys dir)
  unfolding read_secdiscardable
  read_secdiscardable_quiet dir = search (keeps_rules, read_file_to_string_quiet) depth 30

  pub encrypt_without_keystore_quiet :
      (pre key : Text) → Keeps P (encrypt_without_keystore sys pre key)
  unfolding encrypt_without_keystore
  encrypt_without_keystore_quiet pre key =
      search (keeps_rules, call_quiet, read_random_bytes_quiet) depth 30

  pub decrypt_without_keystore_quiet : (pre s : Text) → Keeps P (decrypt_without_keystore sys pre s)
  unfolding decrypt_without_keystore
  decrypt_without_keystore_quiet pre s = search (keeps_rules, call_quiet) depth 30

  pub delete_keystore_key_quiet :
      (dir : Text) (f : KeyFile) → Keeps P (delete_keystore_key sys dir f)
  unfolding delete_keystore_key
  delete_keystore_key_quiet dir f =
      search (keeps_rules, read_file_to_string_quiet, connects_quiet, delete_key_quiet) depth 30

  pub destroy_blob_quiet : (dir : Text) (f : KeyFile) → Keeps P (destroy_blob sys dir f)
  unfolding destroy_blob
  destroy_blob_quiet dir f = search (keeps_rules, delete_keystore_key_quiet) depth 30

  pub destroy_blobs_quiet : (dir : Text) (fs : List KeyFile) → Keeps P (destroy_blobs sys dir fs)
  unfolding destroy_blobs
  destroy_blobs_quiet dir [] = search keeps_rules
  destroy_blobs_quiet dir (f ∷ fs) =
      Keeps-bind (destroy_blob sys dir f)
        (λ first. destroy_blobs sys dir fs >>= λ rest. pure (first.0 && rest.0, first.1 ++ rest.1))
        (destroy_blob_quiet dir f) λ first. search (keeps_rules, destroy_blobs_quiet dir fs)
