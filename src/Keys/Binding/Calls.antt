-- ===== src/Keys/Binding/Calls.antt =====
-- KeyStorage.cpp: the calls up to those that use a Keystore key, on the binding of keys.
use platform_system_vold.Base.{
  ◌≡◌, ℕ, zero, suc, take, drop, ◌++◌, Bool, true, false, List, [], ◌∷◌, Option, none, some, Text,
  arith,
}
use platform_system_vold.Keys.Act.{◌>>=◌, succeeds, pure}
use platform_system_vold.Keys.Keeps.{Keeps, Keeps-bind, keeps_rules}
use platform_system_vold.Keys.World.{StorageBindingInfo, System, World, KeyFile, Request, Operation}
use platform_system_vold.Keys.Calls.{
  call, read_file_to_string, write_string_to_file, unlink_file, make_dir_now, make_dir,
  fsync_directory, fsync_parent_directory, rename_now, rename_dir, read_random_bytes, secdiscard,
  recursive_delete_key,
}
use platform_system_vold.Keys.Upgrades.{
  connects, delete_key, rename_blob_now, rename_blob, commit_upgraded_key, commit_all,
  deferred_commit_keystore_keys, schedule_key_commit, cancel_pending_key_commit, rename_key_dir,
  delete_leftover, delete_upgraded_key, begin_with, keystore_begin, cp_needs_checkpoint,
  current_blob, keep_upgraded, begin_keystore_op, update_round, update_loop, update_completely,
  update_input_max_size, finish, encrypt_with_keystore_key, decrypt_with_keystore_key,
}

-- The binding of keys is `info`.
abbrev pub Bound : StorageBindingInfo → World → Type 0
Bound info w = w.storage_binding_info ≡ info

module _ (sys : System) (info : StorageBindingInfo) where
  pub call-Bound : Keeps (Bound info) (call sys)
  unfolding call
  call-Bound = record { kept = λ w h. h }

  pub read_file_to_string-Bound :
      (dir : Text) (f : KeyFile) → Keeps (Bound info) (read_file_to_string sys dir f)
  unfolding read_file_to_string
  read_file_to_string-Bound dir f = search (keeps_rules, call-Bound) depth 30

  pub write_string_to_file-Bound :
      (s dir : Text) (f : KeyFile) → Keeps (Bound info) (write_string_to_file sys s dir f)
  unfolding write_string_to_file
  write_string_to_file-Bound s dir f = search (keeps_rules, call-Bound) depth 30

  pub unlink_file-Bound : (dir : Text) (f : KeyFile) → Keeps (Bound info) (unlink_file sys dir f)
  unfolding unlink_file
  unlink_file-Bound dir f = search (keeps_rules, call-Bound) depth 30

  make_dir_now-Bound : (dir : Text) → Keeps (Bound info) (make_dir_now sys dir)
  unfolding make_dir_now
  make_dir_now-Bound dir = record { kept = λ w h. ground arith }

  pub make_dir-Bound : (dir : Text) → Keeps (Bound info) (make_dir sys dir)
  unfolding make_dir
  make_dir-Bound dir = search (keeps_rules, call-Bound, make_dir_now-Bound) depth 30

  pub fsync_directory-Bound : (dir : Text) → Keeps (Bound info) (fsync_directory sys dir)
  unfolding fsync_directory
  fsync_directory-Bound dir = search (keeps_rules, call-Bound) depth 30

  pub fsync_parent_directory-Bound :
      (dir : Text) → Keeps (Bound info) (fsync_parent_directory sys dir)
  unfolding fsync_parent_directory
  fsync_parent_directory-Bound dir = search (keeps_rules, call-Bound) depth 30

  rename_now-Bound : (a b : Text) → Keeps (Bound info) (rename_now sys a b)
  unfolding rename_now
  rename_now-Bound a b = record { kept = λ w h. ground arith }

  pub rename_dir-Bound : (a b : Text) → Keeps (Bound info) (rename_dir sys a b)
  unfolding rename_dir
  rename_dir-Bound a b = search (keeps_rules, call-Bound, rename_now-Bound) depth 30

  pub read_random_bytes-Bound : (n : ℕ) → Keeps (Bound info) (read_random_bytes sys n)
  unfolding read_random_bytes
  read_random_bytes-Bound n = search (keeps_rules, call-Bound) depth 30

  pub secdiscard-Bound :
      (dir : Text) (fs : List KeyFile) → Keeps (Bound info) (secdiscard sys dir fs)
  unfolding secdiscard
  secdiscard-Bound dir fs = search (keeps_rules, call-Bound) depth 30

  pub recursive_delete_key-Bound : (dir : Text) → Keeps (Bound info) (recursive_delete_key sys dir)
  unfolding recursive_delete_key
  recursive_delete_key-Bound dir = search (keeps_rules, call-Bound) depth 30

  pub connects-Bound : Keeps (Bound info) (connects sys)
  unfolding connects
  connects-Bound = search (keeps_rules, call-Bound) depth 30

  pub delete_key-Bound : (b : Text) → Keeps (Bound info) (delete_key sys b)
  unfolding delete_key
  delete_key-Bound b = search (keeps_rules, call-Bound) depth 30

  rename_blob_now-Bound : (dir : Text) → Keeps (Bound info) (rename_blob_now sys dir)
  unfolding rename_blob_now
  rename_blob_now-Bound dir = record { kept = λ w h. ground arith }

  pub rename_blob-Bound : (dir : Text) → Keeps (Bound info) (rename_blob sys dir)
  unfolding rename_blob
  rename_blob-Bound dir = search (keeps_rules, call-Bound, rename_blob_now-Bound) depth 30

  pub commit_upgraded_key-Bound :
      (b : Bool) (dir : Text) → Keeps (Bound info) (commit_upgraded_key sys b dir)
  unfolding commit_upgraded_key
  commit_upgraded_key-Bound b dir =
      search
        (
          keeps_rules, read_file_to_string-Bound, rename_blob-Bound, fsync_directory-Bound,
          delete_key-Bound,
        )
        depth 30

  pub commit_all-Bound : (b : Bool) (dirs : List Text) → Keeps (Bound info) (commit_all sys b dirs)
  unfolding commit_all
  commit_all-Bound b [] = search keeps_rules
  commit_all-Bound b (dir ∷ dirs) =
      Keeps-bind (succeeds (commit_upgraded_key sys b dir)) (λ c. commit_all sys b dirs)
        (search (keeps_rules, commit_upgraded_key-Bound)) λ c. commit_all-Bound b dirs

  pub deferred_commit_keystore_keys-Bound : Keeps (Bound info) (deferred_commit_keystore_keys sys)
  unfolding deferred_commit_keystore_keys
  deferred_commit_keystore_keys-Bound =
      search (keeps_rules, commit_all-Bound, connects-Bound) depth 30

  pub schedule_key_commit-Bound : (dir : Text) → Keeps (Bound info) (schedule_key_commit sys dir)
  unfolding schedule_key_commit
  schedule_key_commit-Bound dir = search keeps_rules depth 30

  pub cancel_pending_key_commit-Bound :
      (dir : Text) → Keeps (Bound info) (cancel_pending_key_commit sys dir)
  unfolding cancel_pending_key_commit
  cancel_pending_key_commit-Bound dir = search keeps_rules depth 30

  pub rename_key_dir-Bound : (a b : Text) → Keeps (Bound info) (rename_key_dir sys a b)
  unfolding rename_key_dir
  rename_key_dir-Bound a b = search (keeps_rules, rename_dir-Bound) depth 30

  pub delete_leftover-Bound : (dir : Text) → Keeps (Bound info) (delete_leftover sys dir)
  unfolding delete_leftover
  delete_leftover-Bound dir =
      search (keeps_rules, read_file_to_string-Bound, delete_key-Bound) depth 30

  pub delete_upgraded_key-Bound : (dir : Text) → Keeps (Bound info) (delete_upgraded_key sys dir)
  unfolding delete_upgraded_key
  delete_upgraded_key-Bound dir =
      search (keeps_rules, delete_leftover-Bound, unlink_file-Bound) depth 30

  pub keystore_begin-Bound :
      (blob : Text) (r : Request) → Keeps (Bound info) (keystore_begin sys blob r)
  unfolding keystore_begin
  keystore_begin-Bound blob r = search (keeps_rules, call-Bound) depth 30

  pub cp_needs_checkpoint-Bound : Keeps (Bound info) (cp_needs_checkpoint sys)
  unfolding cp_needs_checkpoint
  cp_needs_checkpoint-Bound = search keeps_rules depth 30

  pub current_blob-Bound : (b : Bool) (dir : Text) → Keeps (Bound info) (current_blob sys b dir)
  unfolding current_blob
  current_blob-Bound b dir =
      search (keeps_rules, read_file_to_string-Bound, delete_upgraded_key-Bound) depth 30

  pub keep_upgraded-Bound :
      (b : Bool) (dir : Text) (up : Option Text) → Keeps (Bound info) (keep_upgraded sys b dir up)
  unfolding keep_upgraded
  keep_upgraded-Bound true dir (some up) = search keeps_rules
  keep_upgraded-Bound b dir none = search keeps_rules
  keep_upgraded-Bound false dir (some up) =
      search
        (
          keeps_rules, write_string_to_file-Bound, cp_needs_checkpoint-Bound,
          schedule_key_commit-Bound, commit_upgraded_key-Bound,
        )
        depth 30

  begin_with-Bound :
      (b : Bool) (dir : Text) (r : Request) → Keeps (Bound info) (begin_with sys b dir r)
  unfolding begin_with
  begin_with-Bound b dir r =
      search (keeps_rules, current_blob-Bound, keystore_begin-Bound, keep_upgraded-Bound) depth 30

  pub begin_keystore_op-Bound :
      (dir : Text) (r : Request) → Keeps (Bound info) (begin_keystore_op sys dir r)
  unfolding begin_keystore_op
  begin_keystore_op-Bound dir r = search (keeps_rules, begin_with-Bound)

  pub update_round-Bound :
      (op : Operation) (t s : Text) → Keeps (Bound info) (update_round sys op t s)
  unfolding update_round
  update_round-Bound op t s = search (keeps_rules, call-Bound) depth 30

  pub update_loop-Bound :
      (n : ℕ) (op : Operation) (t s : Text) → Keeps (Bound info) (update_loop sys n op t s)
  unfolding update_loop
  update_loop-Bound n op t [] = search keeps_rules
  update_loop-Bound zero op t (c ∷ s) = search keeps_rules
  update_loop-Bound (suc n) op t (c ∷ s) =
      Keeps-bind (update_round sys op t (take update_input_max_size (c ∷ s)))
        (λ output.
          update_loop sys n op (t ++ take update_input_max_size (c ∷ s))
            (drop update_input_max_size (c ∷ s))
          >>= λ rest. pure (output ++ rest))
        (update_round-Bound op t (take update_input_max_size (c ∷ s)))
        λ output. search (keeps_rules, update_loop-Bound n)

  pub update_completely-Bound :
      (op : Operation) (s : Text) → Keeps (Bound info) (update_completely sys op s)
  unfolding update_completely
  update_completely-Bound op s = search (keeps_rules, update_loop-Bound) depth 30

  pub finish-Bound : (op : Operation) (s : Text) → Keeps (Bound info) (finish sys op s)
  unfolding finish
  finish-Bound op s = search (keeps_rules, call-Bound) depth 30

  pub encrypt_with_keystore_key-Bound :
      (dir id s : Text) → Keeps (Bound info) (encrypt_with_keystore_key sys dir id s)
  unfolding encrypt_with_keystore_key
  encrypt_with_keystore_key-Bound dir id s =
      search (keeps_rules, begin_keystore_op-Bound, update_completely-Bound, finish-Bound) depth 30

  pub decrypt_with_keystore_key-Bound :
      (dir id s : Text) → Keeps (Bound info) (decrypt_with_keystore_key sys dir id s)
  unfolding decrypt_with_keystore_key
  decrypt_with_keystore_key-Bound dir id s =
      search (keeps_rules, begin_keystore_op-Bound, update_completely-Bound, finish-Bound) depth 30
