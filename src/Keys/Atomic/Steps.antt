-- ===== src/Keys/Atomic/Steps.antt =====
-- KeyStorage.cpp: what the steps of storing a key leave of the key's name and of the temporary
-- directory.
use mathlib.Core.Path.{subst}
use platform_system_vold.Base.{
  ◌≡◌, refl, sym, ap, ◌∙◌, inl, inr, true, false, Option, none, some, Text, text_eq, text_eq_refl,
  Bool-cases, suc,
}
use platform_system_vold.Keys.Act.{◌>>=◌, reads, modifies, require, is_some}
use platform_system_vold.Keys.Keeps.{Keeps, Post, Ends, keeps_rules}
use platform_system_vold.Keys.Quiet.{IsOfFiles, call_quiet}
use platform_system_vold.Keys.World.{
  encrypted_key, version, KeyFile, Files, Dir, System, World, empty_dir,
}
use platform_system_vold.Keys.Calls.{
  call, dir_at, file_at, content_of, in_dir, with_file, set_dir, sync_entries, path_exists,
  make_dir, make_dir_now, write_string_to_file, fsync_directory,
}
use platform_system_vold.Keys.Upgrades.{moved_blob}
use platform_system_vold.Keys.Storage.{current_version}
use platform_system_vold.Keys.Writes.{write_string_to_file-file_at}
use platform_system_vold.Keys.Commits.{durable_in}
use platform_system_vold.Keys.Atomic.Local.{IsLocal, write_local}

-- A directory with the version and a wrapped key, as processes see it and as a power loss leaves it.
pub record IsWhole (d : Option Dir) : Type 0 where
  pub versioned : content_of d version ≡ some current_version
  pub wrapped : is_some (content_of d encrypted_key) ≡ true
  pub synced : (f : KeyFile) → durable_in d f ≡ content_of d f

Post-of :
    (M R : World → Type 0) (r : Option (Unit {0})) (t : World) {m : Option (Unit {0}) × World}
    → m ≡ (r, t)
    → R t
    → (m ≡ (some tt, t) → M t)
    → Post M R (r, t)
Post-of M R none t e h next = h
Post-of M R (some u) t e h next = next e

module _ (sys : System) (key_path tmp_path : Text)
    (apart : text_eq (sys.canonical key_path) (sys.canonical tmp_path) ≡ false) where
  abbrev pub Absent : World → Type 0
  Absent w = dir_at sys key_path w ≡ none

  -- The key is not there, and the directory that is being filled has the version.
  abbrev pub Started : World → Type 0
  Started w =
      (dir_at sys key_path w ≡ none) × (file_at sys tmp_path version w ≡ some current_version)

  pub Absent-of_files : IsOfFiles sys Absent
  Absent-of_files = record { same = λ v w d k n h. rw (sym d) h }

  pub Started-of_files : IsOfFiles sys Started
  Started-of_files = record { same = λ v w d k n h. rw (sym d) h }

  pub set-Absent : (d : Option Dir) (w : World) → Absent w → Absent (set_dir sys tmp_path d w)
  set-Absent d w h = rw apart h

  pub kept_version :
      (change : Files → Files) (d : Option Dir)
      → ((files : Files) → change files version ≡ files version)
      → content_of (in_dir change d) version ≡ content_of d version
  kept_version change none same = refl
  kept_version change (some d) same = same d.now

  pub change-Started :
      (change : Files → Files) (w : World)
      → ((files : Files) → change files version ≡ files version)
      → Started w
      → Started (set_dir sys tmp_path (in_dir change (dir_at sys tmp_path w)) w)
  change-Started change w same (absent, started) = (
    rw apart absent,
    rw (text_eq_refl (sys.canonical tmp_path))
        (kept_version change (dir_at sys tmp_path w) same ∙ started),
  )

  pub synced_version : (d : Option Dir) → content_of (sync_entries d) version ≡ content_of d version
  synced_version none = refl
  synced_version (some d) = refl

  pub Started-local : IsLocal sys tmp_path Started
  Started-local = record {
    of_files = Started-of_files;
    sets = λ f content w other h. change-Started (with_file f content) w (λ files. rw other refl) h;
    moves = λ w h. change-Started moved_blob w (λ files. refl) h;
    syncs = λ w h. (
      rw apart h.0,
      rw (text_eq_refl (sys.canonical tmp_path)) (synced_version (dir_at sys tmp_path w) ∙ h.1),
    );
    lists = λ ps w h. h;
  }

  pub make_dir_now-Absent : Keeps Absent (make_dir_now sys tmp_path)
  unfolding make_dir_now
  make_dir_now-Absent = record {
    kept = λ w h. elim (Bool-cases (path_exists sys tmp_path w)) [
      | inl e ↦ rw e h
      | inr e ↦ rw e (set-Absent (some empty_dir) w h)
    ];
  }

  pub make_dir-Absent : Keeps Absent (make_dir sys tmp_path)
  unfolding make_dir
  make_dir-Absent = search (keeps_rules, call_quiet, Absent-of_files, make_dir_now-Absent) depth 30

  pub write-Absent : (s : Text) (f : KeyFile) → Keeps Absent (write_string_to_file sys s tmp_path f)
  unfolding write_string_to_file
  write-Absent s f = search (keeps_rules, call_quiet, Absent-of_files, set-Absent) depth 30

  -- What holds of a file after a write that succeeds is known.
  pub written-Post :
      (s : Text) (f : KeyFile) (w : World) {M : World → Type 0}
      → Absent w
      → ((t : World)
          → Absent t
          → file_at sys tmp_path f t ≡ some s
          → (write_string_to_file sys s tmp_path f w).1 ≡ t
          → M t)
      → Post M Absent (write_string_to_file sys s tmp_path f w)
  written-Post s f w {M} h next =
      let (r, t) = write_string_to_file sys s tmp_path f w in
      Post-of M Absent r t refl ((write-Absent s f).kept w h) (λ e.
        next t ((write-Absent s f).kept w h) (write_string_to_file-file_at sys tmp_path f s w t e)
          refl)

  pub write_version :
      Ends Absent Started Absent (write_string_to_file sys current_version tmp_path version)
  write_version = record {
    ends = λ w h. written-Post current_version version w h (λ t a e _. (a, e));
  }

  -- The wrapped key is written.
  abbrev pub Filled : World → Type 0
  Filled w = Started w × (is_some (file_at sys tmp_path encrypted_key w) ≡ true)

  pub write_wrapped :
      (s : Text) → Ends Started Filled Absent (write_string_to_file sys s tmp_path encrypted_key)
  write_wrapped s = record {
    ends = λ w h. written-Post s encrypted_key w h.0 (λ t a e same. (
      subst Started same ((write_local sys tmp_path Started-local s encrypted_key refl).kept w h),
      ap is_some e,
    ));
  }

  -- The directory is whole.
  abbrev pub Done : World → Type 0
  Done w = Absent w × IsWhole (dir_at sys tmp_path w)

  pub dir_at_set :
      (path : Text) (d : Option Dir) (w : World) → dir_at sys path (set_dir sys path d w) ≡ d
  dir_at_set path d w = rw (text_eq_refl (sys.canonical path)) refl

  pub IsWhole-synced :
      (d : Option Dir)
      → content_of d version ≡ some current_version
      → is_some (content_of d encrypted_key) ≡ true
      → IsWhole (sync_entries d)
  IsWhole-synced none v e = cc
  IsWhole-synced (some d) v e = record { versioned = v; wrapped = e; synced = λ f. refl }

  pub sync_whole : Ends Filled Done Absent (fsync_directory sys tmp_path)
  unfolding fsync_directory call ◌>>=◌ reads modifies require
  sync_whole = record {
    ends = λ w h.
        let t : World = record w { clock = suc (suc w.clock) } in
        let d = sync_entries (dir_at sys tmp_path w) in
        let whole = IsWhole-synced (dir_at sys tmp_path w) h.0.1 h.1 in
        let arrived = dir_at_set tmp_path d t in
        elim (Bool-cases (sys.works w.clock)) [
          | inl e ↦ elim (Bool-cases (path_exists sys tmp_path w)) [
            | inl there ↦ elim (Bool-cases (sys.works (suc w.clock))) [
              | inl e' ↦ rw (e, there, e') (set-Absent d t h.0.0, subst IsWhole (sym arrived) whole)
              | inr e' ↦ rw (e, there, e') h.0.0
            ]
            | inr there ↦ rw (e, there) h.0.0
          ]
          | inr e ↦ rw e h.0.0
        ];
  }
