-- ===== src/Keys/Contents.antt =====
-- KeyStorage.cpp: what a key directory holds while no call fails.
use platform_system_vold.Base.{
  ℕ, suc, ◌≡◌, refl, ap, ◌∙◌, true, false, [], Option, none, some, if◌then◌else◌, arith, Text,
  text_eq, text_eq_refl,
}
use platform_system_vold.Keys.Act.{
  Act, ◌>>=◌, reads, finds, modifies, succeeds, require, is_some, fail, bind-some,
}
use platform_system_vold.Keys.World.{
  KeyFile, Files, Dir, no_files, empty_dir, same_name, StorageBindingInfo, System, World,
}
use platform_system_vold.Keys.Calls.{
  call, dir_at, file_at, content_of, path_exists, set_dir, in_dir, with_file, make_dir,
  make_dir_now, write_string_to_file, read_file_to_string, fsync_directory, sync_entries,
  rename_dir, rename_now, move_dir, is_same_file,
}
use platform_system_vold.Keys.Upgrades.{rename_key_dir, replace_first}
use platform_system_vold.Keys.Pending.Lists.{text_eq_sym}
use platform_system_vold.Keys.Streams.{healthy, later, Passes}

-- The call succeeds with `a` and leads to a state with `Q`.
abbrev pub Goes : {A : Type 0} → Act World A → World → A → (World → Type 0) → Type 0
Goes m w a Q = (t : World) × (m w ≡ (some a, t)) × Q t

pub Goes-bind :
    {A B : Type 0} {Q R : World → Type 0} (m : Act World A) (f : A → Act World B) {w : World}
    {a : A} {b : B}
    → Goes m w a Q
    → ((t : World) → Q t → Goes (f a) t b R)
    → Goes (m >>= f) w b R
Goes-bind m f {w} (t, e, q) next = let (u, e', r) = next t q in (u, bind-some m f w e ∙ e', r)

-- The directory holds these files and the other name is not in use; no commit is pending, and keys
-- are bound by `info`.
pub record Holds (sys : System) (dir other : Text) (files : Files) (info : StorageBindingInfo)
    (w : World) : Type 0 where
  pub vacant : dir_at sys other w ≡ none
  pub there : path_exists sys dir w ≡ true
  pub now : (f : KeyFile) → file_at sys dir f w ≡ files f
  pub idle : w.key_dirs_to_commit ≡ []
  pub bound : w.storage_binding_info ≡ info

module _ (sys : System) (dir other : Text) {files : Files} {info : StorageBindingInfo} (w : World)
    (h : Holds sys dir other files info w) where
  pub later-Holds : (n : ℕ) → Holds sys dir other files info (later n w)
  later-Holds n = record {
    vacant = h.vacant;
    there = h.there;
    now = h.now;
    idle = h.idle;
    bound = h.bound;
  }

  -- A call that changes the time only.
  pub Passes-holding :
      {A : Type 0} (m : Act World A) (a : A)
      → Passes m w a
      → Goes m w a (Holds sys dir other files info)
  Passes-holding m a (n, e) = (later n w, e, later-Holds n)

changed_content :
    (change : Files → Files) (f : KeyFile) (d : Option Dir)
    → is_some d ≡ true
    → content_of (in_dir change d) f ≡ change (content_of d) f
changed_content change f none h = cc
changed_content change f (some d) h = refl

in_dir-is_some : (change : Files → Files) (d : Option Dir) → is_some (in_dir change d) ≡ is_some d
in_dir-is_some change none = refl
in_dir-is_some change (some d) = refl

synced_content : (f : KeyFile) (d : Option Dir) → content_of (sync_entries d) f ≡ content_of d f
synced_content f none = refl
synced_content f (some d) = refl

synced_is_some : (d : Option Dir) → is_some (sync_entries d) ≡ is_some d
synced_is_some none = refl
synced_is_some (some d) = refl

module _ (sys : System) (dir : Text) (w : World) where
  pub dir_at-set_other :
      (other : Text) (d : Option Dir)
      → text_eq (sys.canonical other) (sys.canonical dir) ≡ false
      → dir_at sys other (set_dir sys dir d w) ≡ dir_at sys other w
  dir_at-set_other other d apart = rw apart refl

  pub dir_at-set_dir : (d : Option Dir) → dir_at sys dir (set_dir sys dir d w) ≡ d
  dir_at-set_dir d = rw (text_eq_refl (sys.canonical dir)) refl

module _ (sys : System) (dir other : Text) {files : Files} {info : StorageBindingInfo}
    (apart : text_eq (sys.canonical other) (sys.canonical dir) ≡ false) where
  -- What processes see of the directory is changed.
  change-Holds :
      (change : Files → Files) (d : Option Dir) (w : World)
      → Holds sys dir other files info w
      → ((f : KeyFile) → content_of d f ≡ change files f)
      → is_some d ≡ true
      → Holds sys dir other (change files) info (set_dir sys dir d w)
  change-Holds change d w h seen there = record {
    vacant = dir_at-set_other sys dir w other d apart ∙ h.vacant;
    there = ap is_some (dir_at-set_dir sys dir w d) ∙ there;
    now = λ g. ap (λ (x : Option Dir). content_of x g) (dir_at-set_dir sys dir w d) ∙ seen g;
    idle = h.idle;
    bound = h.bound;
  }

  -- A file is written.
  pub write_holding :
      (s : Text) (f : KeyFile) (w : World)
      → Holds sys dir other files info w
      → Goes
          (write_string_to_file (healthy sys) s dir f)
          w
          tt
          (Holds sys dir other (with_file f (some s) files) info)
  unfolding write_string_to_file call ◌>>=◌ reads modifies succeeds require fail
  write_holding s f w h =
      let t : World = record w { clock = suc (suc (suc w.clock)) } in
      let d = in_dir (with_file f (some s)) (dir_at sys dir w) in
      (
        set_dir sys dir d t,
        rw h.there refl,
        change-Holds (with_file f (some s)) d t (later-Holds sys dir other w h t.clock)
            (λ g.
              changed_content (with_file f (some s)) g (dir_at sys dir w) h.there
              ∙ ap (λ (o : Option Text). if same_name f g then some s else o) (h.now g))
            (in_dir-is_some (with_file f (some s)) (dir_at sys dir w) ∙ h.there),
      )

  -- The directory is synced.
  pub sync_holding :
      (w : World)
      → Holds sys dir other files info w
      → Goes (fsync_directory (healthy sys) dir) w tt (Holds sys dir other files info)
  unfolding fsync_directory call ◌>>=◌ reads modifies require
  sync_holding w h =
      let t : World = record w { clock = suc (suc w.clock) } in
      let d = sync_entries (dir_at sys dir w) in
      (
        set_dir sys dir d t,
        rw h.there refl,
        change-Holds (λ fs. fs) d t (later-Holds sys dir other w h t.clock)
            (λ g. synced_content g (dir_at sys dir w) ∙ h.now g)
            (synced_is_some (dir_at sys dir w) ∙ h.there),
      )

  -- A file is read.
  pub read_holding :
      (f : KeyFile) (s : Text)
      → files f ≡ some s
      → (w : World) → Holds sys dir other files info w
      → Goes (read_file_to_string (healthy sys) dir f) w s (Holds sys dir other files info)
  unfolding read_file_to_string call ◌>>=◌ finds require
  read_holding f s e w h =
      (later (suc w.clock) w, rw (h.now f ∙ e) refl, later-Holds sys dir other w h (suc w.clock))

  -- The directory takes the other name.
  pub rename_holding :
      (w : World)
      → Holds sys dir other files info w
      → Goes (rename_key_dir (healthy sys) dir other) w tt (Holds sys other dir files info)
  unfolding rename_key_dir rename_dir rename_now call ◌>>=◌ reads modifies require replace_first
  rename_holding w h =
      let apart' : text_eq (sys.canonical dir) (sys.canonical other) ≡ false =
        ground (arith, text_eq_sym (sys.canonical dir) (sys.canonical other)) in
      let t : World = record w { clock = suc w.clock } in
      let renamed = replace_first (λ p. is_same_file (healthy sys) dir p w) other in
      let moved : World = record (move_dir sys dir other t) {
        key_dirs_to_commit = renamed w.key_dirs_to_commit;
      } in
      let arrived = dir_at-set_dir sys other (set_dir sys dir none t) (dir_at sys dir w) in
      (
        moved,
        rw (apart', h.there, h.vacant) refl,
        record {
          vacant = rw (apart', text_eq_refl (sys.canonical dir)) refl;
          there = ap is_some arrived ∙ h.there;
          now = λ g. ap (λ (x : Option Dir). content_of x g) arrived ∙ h.now g;
          idle = ap renamed h.idle;
          bound = h.bound;
        },
      )

-- A new directory.
pub make_holding :
    (sys : System) (dir other : Text) (w : World)
    → text_eq (sys.canonical other) (sys.canonical dir) ≡ false
    → dir_at sys dir w ≡ none
    → dir_at sys other w ≡ none
    → w.key_dirs_to_commit ≡ []
    → Goes (make_dir (healthy sys) dir) w tt (Holds sys dir other no_files w.storage_binding_info)
unfolding make_dir make_dir_now call ◌>>=◌ require
make_holding sys dir other w apart fresh vacant idle =
    let t : World = record w { clock = suc w.clock } in
    let made = dir_at-set_dir sys dir t (some empty_dir) in
    (
      set_dir sys dir (some empty_dir) t,
      rw fresh refl,
      record {
        vacant = dir_at-set_other sys dir t other (some empty_dir) apart ∙ vacant;
        there = ap is_some made;
        now = λ g. ap (λ (x : Option Dir). content_of x g) made;
        idle = idle;
        bound = refl;
      },
    )
