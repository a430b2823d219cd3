-- ===== src/Keys/Pending/States.antt =====
-- KeyStorage.cpp: the list of key directories under each change of the files or of the list.
use platform_system_vold.Base.{
  ◌≡◌, refl, sym, ap, ◌∙◌, true, false, not, ◌||◌, [], ◌∷◌, ◌++◌, Option, none, some, arith, Text,
  text_eq, text_eq→eq,
}
use platform_system_vold.Keys.World.{
  KeyFile, keymaster_key_blob_upgraded, same_name, Dir, empty_dir, System, World,
}
use platform_system_vold.Keys.Calls.{
  with_file, in_dir, is_free, can_move, move_dir, dir_at, set_dir, sync_entries, is_same_file,
}
use platform_system_vold.Keys.Upgrades.{erase_first, replace_first, is_key_commit_pending}
use platform_system_vold.Keys.Pending.Lists.{
  has_upgraded, is_listed, distinct_dirs, all_upgraded, listed_upgraded, all_upgraded-set,
  distinct_dirs-append, all_upgraded-append, distinct_dirs-erase, all_upgraded-erase,
  erased_unlisted,
}
use platform_system_vold.Keys.Pending.Moves.{
  erase_same_file, replace_same_file, pending_is_listed, distinct_dirs-replace,
  all_upgraded-replace, distinct_dirs_renamed, all_upgraded_renamed,
}

-- No directory is listed twice, and each listed directory holds an upgraded key.
pub record IsSound (sys : System) (w : World) : Type 0 where
  pub distinct : distinct_dirs sys.canonical w.key_dirs_to_commit ≡ true
  pub upgraded : all_upgraded sys.canonical w.dirs w.key_dirs_to_commit ≡ true

-- That, and the directory is not listed.
pub record IsUnlisted (sys : System) (dir : Text) (w : World) : Type 0 where
  pub sound : IsSound sys w
  pub unlisted : is_listed sys.canonical (sys.canonical dir) w.key_dirs_to_commit ≡ false

module _ (sys : System) (path : Text) (w : World) where
  pub set_dir-IsSound :
      (d : Option Dir)
      → IsSound sys w
      → (not (is_listed sys.canonical (sys.canonical path) w.key_dirs_to_commit) || has_upgraded d)
        ≡ true
      → IsSound sys (set_dir sys path d w)
  set_dir-IsSound d s h = record {
    distinct = s.distinct;
    upgraded =
        all_upgraded-set sys.canonical w.dirs (sys.canonical path) d w.key_dirs_to_commit s.upgraded
          h;
  }

  pub set_dir-IsUnlisted :
      (d : Option Dir) → IsUnlisted sys path w → IsUnlisted sys path (set_dir sys path d w)
  set_dir-IsUnlisted d u = record {
    sound = set_dir-IsSound d u.sound (ground arith);
    unlisted = u.unlisted;
  }

  -- A directory keeps its upgraded key.
  pub keep_dir-IsSound :
      (d : Option Dir)
      → has_upgraded d ≡ has_upgraded (dir_at sys path w)
      → IsSound sys w
      → IsSound sys (set_dir sys path d w)
  keep_dir-IsSound d same s = set_dir-IsSound d s (
      ground (
        arith,
        listed_upgraded sys.canonical w.dirs (sys.canonical path) w.key_dirs_to_commit s.upgraded,
      ))

  absent_unlisted :
      IsSound sys w
      → has_upgraded (dir_at sys path w) ≡ false
      → is_listed sys.canonical (sys.canonical path) w.key_dirs_to_commit ≡ false
  absent_unlisted s h = ground (
    arith,
    listed_upgraded sys.canonical w.dirs (sys.canonical path) w.key_dirs_to_commit s.upgraded,
  )

  pub make_dir-IsSound :
      dir_at sys path w ≡ none → IsSound sys w → IsSound sys (set_dir sys path (some empty_dir) w)
  make_dir-IsSound h s = set_dir-IsSound (some empty_dir) s (ground (arith, absent_unlisted s))

  pub schedule-IsSound :
      IsUnlisted sys path w
      → has_upgraded (dir_at sys path w) ≡ true
      → IsSound sys (record w { key_dirs_to_commit = w.key_dirs_to_commit ++ (path ∷ []) })
  schedule-IsSound u h = record {
    distinct =
        distinct_dirs-append sys.canonical path w.key_dirs_to_commit u.sound.distinct u.unlisted;
    upgraded =
        all_upgraded-append sys.canonical w.dirs path w.key_dirs_to_commit u.sound.upgraded h;
  }

  pub cancel-IsUnlisted :
      IsSound sys w
      → IsUnlisted sys path (record w {
        key_dirs_to_commit = erase_first (λ p. is_same_file sys p path w) w.key_dirs_to_commit;
      })
  cancel-IsUnlisted s =
      let c = sys.canonical path in
      let same = erase_same_file sys path w w.key_dirs_to_commit s.upgraded in
      record {
        sound = record {
          distinct =
              ap (distinct_dirs sys.canonical) same
              ∙ distinct_dirs-erase sys.canonical c w.key_dirs_to_commit s.distinct;
          upgraded =
              ap (all_upgraded sys.canonical w.dirs) same
              ∙ all_upgraded-erase sys.canonical c w.dirs w.key_dirs_to_commit s.upgraded;
        };
        unlisted =
            ap (is_listed sys.canonical c) same
            ∙ erased_unlisted sys.canonical c w.key_dirs_to_commit s.distinct;
      }

  pub not_pending-IsUnlisted :
      IsSound sys w → is_key_commit_pending sys path w ≡ false → IsUnlisted sys path w
  not_pending-IsUnlisted s h = record {
    sound = s;
    unlisted = sym (pending_is_listed sys path w s.upgraded) ∙ h;
  }

-- A file other than the upgraded key changes.
pub with_file-has_upgraded :
    (f : KeyFile) (content : Option Text) (d : Option Dir)
    → same_name f keymaster_key_blob_upgraded ≡ false
    → has_upgraded (in_dir (with_file f content) d) ≡ has_upgraded d
with_file-has_upgraded f content none h = refl
with_file-has_upgraded f content (some d) h = ground arith

pub sync_entries-has_upgraded : (d : Option Dir) → has_upgraded (sync_entries d) ≡ has_upgraded d
sync_entries-has_upgraded none = refl
sync_entries-has_upgraded (some d) = refl

free_has_upgraded : (d : Option Dir) → is_free d ≡ true → has_upgraded d ≡ false
free_has_upgraded none h = refl
free_has_upgraded (some d) h = ground arith

-- A directory takes another name, and its entry with it.
pub move_dir-IsSound :
    (sys : System) (old_name new_name : Text) (w : World)
    → can_move sys old_name new_name w ≡ true
    → IsSound sys w
    → IsSound sys (record (move_dir sys old_name new_name w) {
      key_dirs_to_commit =
          replace_first (λ p. is_same_file sys old_name p w) new_name w.key_dirs_to_commit;
    })
move_dir-IsSound sys old_name new_name w can s =
    let c = sys.canonical old_name in
    let same = replace_same_file sys old_name w new_name w.key_dirs_to_commit s.upgraded in
    let free : is_free (dir_at sys new_name w) ≡ true = ground arith in
    let unlisted =
      absent_unlisted sys new_name w s (free_has_upgraded (dir_at sys new_name w) free) in
    record {
      distinct =
          ap (distinct_dirs sys.canonical) same
          ∙ distinct_dirs-replace sys.canonical c new_name w.key_dirs_to_commit s.distinct unlisted;
      upgraded =
          ap (all_upgraded sys.canonical (move_dir sys old_name new_name w).dirs) same
          ∙ all_upgraded-replace sys.canonical c new_name w.dirs w.key_dirs_to_commit s.upgraded
              s.distinct unlisted;
    }

-- A directory is given a name that it has.
pub same_dir-IsSound :
    (sys : System) (old_name new_name : Text) (w : World)
    → text_eq (sys.canonical old_name) (sys.canonical new_name) ≡ true
    → IsSound sys w
    → IsSound sys (record w {
      key_dirs_to_commit =
          replace_first (λ p. is_same_file sys old_name p w) new_name w.key_dirs_to_commit;
    })
same_dir-IsSound sys old_name new_name w e s =
    let c = sys.canonical old_name in
    let same = text_eq→eq c (sys.canonical new_name) e in
    let replaced = replace_same_file sys old_name w new_name w.key_dirs_to_commit s.upgraded in
    record {
      distinct =
          ap (distinct_dirs sys.canonical) replaced
          ∙ distinct_dirs_renamed sys.canonical c new_name same w.key_dirs_to_commit
          ∙ s.distinct;
      upgraded =
          ap (all_upgraded sys.canonical w.dirs) replaced
          ∙ all_upgraded_renamed sys.canonical c new_name same w.dirs w.key_dirs_to_commit
          ∙ s.upgraded;
    }
