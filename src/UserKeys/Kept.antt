-- ===== src/UserKeys/Kept.antt =====
-- FsCrypt.cpp: the directory of the key that is fixed.
use platform_system_vold.Base.{
  ◌≡◌, sym, ap, ◌∙◌, ◌⊎◌, inl, inr, Bool, true, false, not, ◌||◌, List, [], ◌∷◌, some, arith, Text,
  text_eq, text_eq→eq, text_eq_refl, Bool-cases, all, suc,
}
use platform_system_vold.Keys.Act.{◌>>=◌, ◌>>◌, pure, reads, modifies, require}
use platform_system_vold.Keys.Keeps.{
  Keeps, Post, Ends, Ends-bind, Ends-kept, Keeps-if, Keeps-bind, Keeps-pure, Keeps-succeeds,
  keeps_rules,
}
use platform_system_vold.Keys.Quiet.{IsOfFiles, fsync_parent_directory_quiet}
use platform_system_vold.Keys.World.{Dir, System, World}
use platform_system_vold.Keys.Calls.{call, dir_at, rename_now, rename_dir, can_move, is_same_file}
use platform_system_vold.Keys.Upgrades.{rename_key_dir, replace_first}
use platform_system_vold.UserKeys.Paths.{get_ce_key_current_path}
use platform_system_vold.UserKeys.Away.{IsAway, destroy_key_away}
use platform_system_vold.UserKeys.Fixation.{discard_others, make_current, fixate_user_ce_key}

-- The directory `d` is at the path.
abbrev pub IsAt : System → Text → Dir → World → Type 0
IsAt sys path d w = dir_at sys path w ≡ some d

-- A path other than this one does not lead to its directory.
abbrev pub is_apart : System → (path other : Text) → Bool
is_apart sys path other =
    text_eq other path || not (text_eq (sys.canonical path) (sys.canonical other))

module _ (sys : System) (path : Text) (d : Dir) where
  IsAt-of_files : IsOfFiles sys (IsAt sys path d)
  IsAt-of_files = record { same = λ v w e k n h. rw (sym e) h }

  IsAt-IsAway :
      (other : Text)
      → text_eq (sys.canonical path) (sys.canonical other) ≡ false
      → IsAway sys other (IsAt sys path d)
  IsAt-IsAway other apart = record {
    of_files = IsAt-of_files;
    sets = λ c w h. rw apart h;
    lists = λ ps w h. h;
  }

  discard_others-IsAt :
      (paths : List Text)
      → all (is_apart sys path) paths ≡ true
      → Keeps (IsAt sys path d) (discard_others sys path paths)
  unfolding discard_others
  discard_others-IsAt [] h = search keeps_rules
  discard_others-IsAt (other ∷ paths) h =
      let rest = discard_others-IsAt paths (ground arith) in
      elim (Bool-cases (text_eq other path)) [
        | inl e ↦ rw e rest
        | inr e ↦
            let gone = destroy_key_away sys other (IsAt-IsAway other (ground arith)) in
            rw e (
              Keeps-bind _ _ (Keeps-succeeds _ gone)
                (λ _. Keeps-bind _ _ rest (λ _. Keeps-pure true)))
      ]

module _ (sys : System) (directory_path to_fix : Text) (d : Dir) where
  abbrev current : Text
  current = get_ce_key_current_path directory_path

  -- The directory has its own name or the current one.
  abbrev IsHeld : World → Type 0
  IsHeld w = IsAt sys to_fix d w ⊎ IsAt sys current d w

  rename_now-Post :
      (ps : List Text) (w : World)
      → IsAt sys to_fix d w
      → Post (IsAt sys current d) IsHeld (
          (rename_now sys to_fix current >>= λ _.
          modifies (λ v. record v { key_dirs_to_commit = ps }))
            w)
  unfolding rename_now modifies ◌>>=◌
  rename_now-Post ps w h =
      elim (Bool-cases (text_eq (sys.canonical to_fix) (sys.canonical current))) [
        | inl one ↦
            let same = text_eq→eq (sys.canonical to_fix) (sys.canonical current) one in
            rw (one, h) (ap w.dirs (sym same) ∙ h)
        | inr other ↦ elim (Bool-cases (can_move sys to_fix current w)) [
          | inl e ↦ rw (other, e) (rw (text_eq_refl (sys.canonical current)) h)
          | inr e ↦ rw (other, e) (inl h)
        ]
      ]

  rename_key_dir-Ends :
      Ends (IsAt sys to_fix d) (IsAt sys current d) IsHeld (rename_key_dir sys to_fix current)
  unfolding rename_key_dir rename_dir ◌>>=◌ reads call require
  rename_key_dir-Ends = record {
    ends = λ w h.
        let t : World = record w { clock = suc w.clock } in
        elim (Bool-cases (sys.works w.clock)) [
          | inl e ↦ rw e (
              rename_now-Post
                (replace_first (λ p. is_same_file sys to_fix p w) current w.key_dirs_to_commit) t h)
          | inr e ↦ rw e (inl h)
        ];
  }

  renamed-Ends :
      Ends
        (IsAt sys to_fix d)
        (IsAt sys current d)
        IsHeld
        (do rename_key_dir sys to_fix current; pure true)
  renamed-Ends = Ends-bind _ _ rename_key_dir-Ends λ _. Ends-kept _ (Keeps-pure true) (λ w h. inr h)

  make_current-Ends :
      Ends (IsAt sys to_fix d) (IsAt sys current d) IsHeld (make_current sys directory_path to_fix)
  unfolding make_current pure
  make_current-Ends = elim (Bool-cases (text_eq to_fix current)) [
    | inl e ↦
        let same = text_eq→eq to_fix current e in
        rw e (record { ends = λ w h. ap (λ p. dir_at sys p w) (sym same) ∙ h })
    | inr e ↦ rw e renamed-Ends
  ]

-- Whatever fails when a key is fixed: where its directory is there and the other paths do not lead
-- to it, it is unchanged under the current path if the call succeeds, and under its own path or the
-- current one if the call fails.
pub fixate_user_ce_key_holds :
    (sys : System) (directory_path to_fix : Text) (paths : List Text) (d : Dir) (w : World)
    → all (is_apart sys to_fix) paths ≡ true
    → dir_at sys to_fix w ≡ some d
    → Post
        (λ t. dir_at sys (get_ce_key_current_path directory_path) t ≡ some d)
        (λ t.
          (dir_at sys to_fix t ≡ some d)
          ⊎ (dir_at sys (get_ce_key_current_path directory_path) t ≡ some d))
        (fixate_user_ce_key sys directory_path to_fix paths w)
unfolding fixate_user_ce_key
fixate_user_ce_key_holds sys directory_path to_fix paths d w apart there =
    let held = IsHeld sys directory_path to_fix d in
    let path = get_ce_key_current_path directory_path in
    let at : IsOfFiles sys (IsAt sys path d) = IsAt-of_files sys path d in
    (Ends-bind {R = held} _ _
        (Ends-kept _ (discard_others-IsAt sys to_fix d paths apart) (λ v h. inl h))
        λ discarded. Ends-bind _ _ (make_current-Ends sys directory_path to_fix d) λ renamed.
          Ends-kept _
            (Keeps-if (discarded || renamed) _ _ (fsync_parent_directory_quiet sys at path)
              (Keeps-pure tt))
            (λ v h. inr h)).ends
      w there
