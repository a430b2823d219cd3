-- ===== src/Keys/Atomic.antt =====
-- KeyStorage.cpp: a key is stored entirely or not at all.
pub mod Local
pub mod Steps
use mathlib.Core.Path.{subst}
use platform_system_vold.Base.{
  ◌≡◌, refl, sym, ap, ◌∙◌, ◌⊎◌, inl, inr, Bool, true, false, List, [], ◌∷◌, Option, none, some,
  if◌then◌else◌, arith, Text, text_eq, text_eq_refl, Bool-cases, suc, ◌&&◌,
}
use platform_system_vold.Keys.Act.{
  Act, ◌>>=◌, ◌>>◌, pure, reads, modifies, succeeds, require, fail, is_some,
}
use platform_system_vold.Keys.Keeps.{
  Keeps, Leads, Post, Ends, Ends-bind, Ends-kept, Leads-Ends, Leads-first, Leads-then, Keeps-if,
  keeps_rules,
}
use platform_system_vold.Keys.Quiet.{
  needed, IsOfFiles, call_quiet, generate_app_id_quiet, destroy_blobs_quiet,
  fsync_parent_directory_quiet,
}
use platform_system_vold.Keys.World.{
  encrypted_key, keymaster_key_blob_upgraded, version, KeyFile, Files, Dir, same_name, System,
  World, KeyAuthentication, uses_keystore, empty_dir,
}
use platform_system_vold.Keys.Calls.{
  call, dir_at, file_at, content_of, in_dir, with_file, set_dir, set_file, sync_entries,
  path_exists, make_dir, make_dir_now, write_string_to_file, fsync_directory,
  fsync_parent_directory, rename_now, rename_dir, can_move, move_dir, secdiscard,
  recursive_delete_key, is_same_file,
}
use platform_system_vold.Keys.Upgrades.{
  moved_blob, cancel_pending_key_commit, rename_key_dir, replace_first,
}
use platform_system_vold.Keys.Storage.{
  current_version, generate_app_id, create_secdiscardable, wrap_key, store_key, destroy_files,
  destroy_key, store_key_atomically,
}
use platform_system_vold.Keys.Writes.{write_string_to_file-file_at}
use platform_system_vold.Keys.Commits.{durable_in}
use Local.{IsLocal, write_local, create_local, wrap_local}
use Steps.{
  IsWhole, Absent, Started, Absent-of_files, Started-of_files, set-Absent, kept_version,
  change-Started, synced_version, Started-local, make_dir_now-Absent, make_dir-Absent, write-Absent,
  written-Post, write_version, Filled, write_wrapped, Done, dir_at_set, IsWhole-synced, sync_whole,
}

module _ (sys : System) (key_path tmp_path : Text)
    (apart : text_eq (sys.canonical key_path) (sys.canonical tmp_path) ≡ false) where
  store_key-Ends :
      (auth : KeyAuthentication) (key : Text)
      → Ends
          (Absent sys key_path tmp_path apart)
          (Done sys key_path tmp_path apart)
          (Absent sys key_path tmp_path apart)
          (store_key sys tmp_path auth key)
  unfolding store_key
  store_key-Ends auth key =
      let gone = λ (w : World) (h : (Started sys key_path tmp_path apart) w). h.0 in
      Ends-bind _ _ (Ends-kept _ (make_dir-Absent sys key_path tmp_path apart) (λ w h. h)) λ _.
        Ends-bind _ _ (write_version sys key_path tmp_path apart) λ _.
          Ends-bind _ _
            (Ends-kept (if uses_keystore auth then create_secdiscardable sys tmp_path else pure [])
              (search (keeps_rules, create_local, (Started-local sys key_path tmp_path apart)))
              gone)
            λ hash.
              Ends-bind _ _
                (Ends-kept _
                  (generate_app_id_quiet sys (Started-of_files sys key_path tmp_path apart) auth
                    hash)
                  gone)
                λ id.
                  Ends-bind _ _
                    (Ends-kept _
                      (wrap_local sys tmp_path (Started-local sys key_path tmp_path apart) auth id
                        key)
                      gone)
                    λ wrapped.
                      Ends-bind _ _ ((write_wrapped sys key_path tmp_path apart) wrapped)
                        λ _. (sync_whole sys key_path tmp_path apart)

  -- The key is not there, or it is there and whole.
  abbrev Settled : World → Type 0
  Settled w = (Absent sys key_path tmp_path apart) w ⊎ IsWhole (dir_at sys key_path w)

  rename-Settled :
      (ps : List Text) (w : World)
      → (Done sys key_path tmp_path apart) w
      → Settled
          ((rename_now sys tmp_path key_path >>= λ _.
              modifies (λ v. record v { key_dirs_to_commit = ps }))
            w).1
  unfolding rename_now modifies ◌>>=◌
  rename-Settled ps w h =
      elim (Bool-cases (text_eq (sys.canonical tmp_path) (sys.canonical key_path))) [
        | inl one ↦ elim (Bool-cases (path_exists sys tmp_path w)) [
          | inl e ↦ rw (one, e) (inl h.0)
          | inr e ↦ rw (one, e) (inl h.0)
        ]
        | inr other ↦ elim (Bool-cases (can_move sys tmp_path key_path w)) [
          | inl e ↦
              rw (other, e)
                (inr (
                  subst IsWhole
                    (sym (
                      (dir_at_set sys key_path tmp_path apart) key_path (dir_at sys tmp_path w)
                        (set_dir sys tmp_path none w)))
                    h.1))
          | inr e ↦ rw (other, e) (inl h.0)
        ]
      ]

  rename_key_dir-Settled :
      Leads (Done sys key_path tmp_path apart) Settled (rename_key_dir sys tmp_path key_path)
  unfolding rename_key_dir rename_dir ◌>>=◌ reads call require
  rename_key_dir-Settled = record {
    led = λ w h.
        let t : World = record w { clock = suc w.clock } in
        elim (Bool-cases (sys.works w.clock)) [
          | inl e ↦ rw e (
              rename-Settled
                (replace_first (λ p. is_same_file sys tmp_path p w) key_path w.key_dirs_to_commit) t
                h)
          | inr e ↦ rw e (inl h.0)
        ];
  }

  Settled-of_files : IsOfFiles sys Settled
  Settled-of_files = record { same = λ v w d k n h. rw (sym d) h }

  cancel-Absent :
      Keeps (Absent sys key_path tmp_path apart) (cancel_pending_key_commit sys tmp_path)
  unfolding cancel_pending_key_commit
  cancel-Absent = search (keeps_rules) depth 10

  secdiscard-Absent :
      (fs : List KeyFile) → Keeps (Absent sys key_path tmp_path apart) (secdiscard sys tmp_path fs)
  unfolding secdiscard
  secdiscard-Absent fs =
      search
        (
          keeps_rules,
          call_quiet,
          (Absent-of_files sys key_path tmp_path apart),
          (set-Absent sys key_path tmp_path apart),
        )
        depth 30

  remove-Absent : Keeps (Absent sys key_path tmp_path apart) (recursive_delete_key sys tmp_path)
  unfolding recursive_delete_key
  remove-Absent =
      search
        (
          keeps_rules,
          call_quiet,
          (Absent-of_files sys key_path tmp_path apart),
          (set-Absent sys key_path tmp_path apart),
        )
        depth 30

  destroy_key-Absent : Keeps (Absent sys key_path tmp_path apart) (destroy_key sys tmp_path)
  unfolding destroy_key destroy_files
  destroy_key-Absent =
      search
        (
          keeps_rules,
          cancel-Absent,
          destroy_blobs_quiet,
          (Absent-of_files sys key_path tmp_path apart),
          secdiscard-Absent,
          remove-Absent,
        )
        depth 30

  store_key_atomically-Settled :
      (auth : KeyAuthentication) (key : Text)
      → Leads
          (Absent sys key_path tmp_path apart)
          Settled
          (store_key_atomically sys key_path tmp_path auth key)
  unfolding store_key_atomically
  store_key_atomically-Settled auth key =
      let absent : (w : World) → (Absent sys key_path tmp_path apart) w → Settled w =
        λ w h. inl h in
      Leads-first _ _ (search keeps_rules) absent λ stored.
        Leads-first _ _ (search keeps_rules) absent λ _.
          Leads-first _ _ (search keeps_rules) absent λ left_over.
            Leads-first _ _
              (Keeps-if left_over (succeeds (destroy_key sys tmp_path)) (pure true)
                (search (keeps_rules, destroy_key-Absent)) (search keeps_rules))
              absent
              λ _. Leads-Ends _ _ (store_key-Ends auth key) absent λ _.
                Leads-then _ _ rename_key_dir-Settled
                  λ _. fsync_parent_directory_quiet sys Settled-of_files key_path

-- Whatever fails when a key is stored under a name that is not in use, and that is not the
-- temporary one: the name is not in use afterwards, or its directory holds the version and a wrapped
-- key, and a power loss leaves it as it is.
pub store_key_atomically-IsWhole :
    (sys : System) (key_path tmp_path : Text) (auth : KeyAuthentication) (key : Text) (w : World)
    → text_eq (sys.canonical key_path) (sys.canonical tmp_path) ≡ false
    → dir_at sys key_path w ≡ none
    → let d = dir_at sys key_path (store_key_atomically sys key_path tmp_path auth key w).1 in
      (d ≡ none) ⊎ IsWhole d
store_key_atomically-IsWhole sys key_path tmp_path auth key w apart absent =
    (store_key_atomically-Settled sys key_path tmp_path apart auth key).led w absent
