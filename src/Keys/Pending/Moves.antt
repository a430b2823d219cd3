-- ===== src/Keys/Pending/Moves.antt =====
-- KeyStorage.cpp: the list of key directories when one of them is renamed, and the search for the
-- entry of a directory.
use platform_system_vold.Base.{
  ◌≡◌, refl, sym, ap, ◌∙◌, Bool, true, false, List, [], ◌∷◌, Option, none, some, if◌then◌else◌, any,
  arith, Text, text_eq, text_eq_refl, text_eq→eq, Bool-cases, inl, inr,
}
use platform_system_vold.Keys.World.{Dir, System, World}
use platform_system_vold.Keys.Act.{is_some}
use platform_system_vold.Keys.Calls.{is_same_file}
use platform_system_vold.Keys.Upgrades.{erase_first, replace_first, is_key_commit_pending}
use platform_system_vold.Keys.Pending.Lists.{
  has_upgraded, text_eq_sym, is_listed, distinct_dirs, all_upgraded, all_upgraded-set, is_entry,
}

has_upgraded_some : (d : Option Dir) → has_upgraded d ≡ true → is_some d ≡ true
has_upgraded_some none h = cc
has_upgraded_some (some d) h = refl

module _ (canonical : Text → Text) (dirs : Text → Option Dir) (f g : Text → Bool)
    (agree : (p : Text) → has_upgraded (dirs (canonical p)) ≡ true → f p ≡ g p) where
  pub erase_first_agrees :
      (ps : List Text) → all_upgraded canonical dirs ps ≡ true → erase_first f ps ≡ erase_first g ps
  unfolding erase_first
  erase_first_agrees [] up = refl
  erase_first_agrees (p ∷ ps) up = ground (arith, agree p, erase_first_agrees ps)

  pub replace_first_agrees :
      (y : Text) (ps : List Text)
      → all_upgraded canonical dirs ps ≡ true
      → replace_first f y ps ≡ replace_first g y ps
  unfolding replace_first
  replace_first_agrees y [] up = refl
  replace_first_agrees y (p ∷ ps) up = ground (arith, agree p, replace_first_agrees y ps)

module _ (sys : System) (dir : Text) (w : World) where
  entry_is_same_file :
      (p : Text)
      → has_upgraded (w.dirs (sys.canonical p)) ≡ true
      → is_same_file sys dir p w ≡ is_entry sys.canonical (sys.canonical dir) p
  entry_is_same_file p h =
      let there = has_upgraded_some (w.dirs (sys.canonical p)) h in
      elim (Bool-cases (text_eq (sys.canonical dir) (sys.canonical p))) [
        | inl e ↦
            let same =
              ap (λ (k : Text). is_some (w.dirs k))
                (text_eq→eq (sys.canonical dir) (sys.canonical p) e) in
            ground arith
        | inr e ↦ ground arith
      ]

  same_file_is_entry :
      (p : Text)
      → has_upgraded (w.dirs (sys.canonical p)) ≡ true
      → is_same_file sys p dir w ≡ is_entry sys.canonical (sys.canonical dir) p
  same_file_is_entry p h = ground (
    arith,
    entry_is_same_file p,
    text_eq_sym (sys.canonical dir) (sys.canonical p),
    text_eq_sym (sys.canonical p) (sys.canonical dir),
  )

  pub erase_same_file :
      (ps : List Text)
      → all_upgraded sys.canonical w.dirs ps ≡ true
      → erase_first (λ p. is_same_file sys p dir w) ps
        ≡ erase_first (is_entry sys.canonical (sys.canonical dir)) ps
  erase_same_file =
      erase_first_agrees sys.canonical w.dirs (λ p. is_same_file sys p dir w)
        (is_entry sys.canonical (sys.canonical dir)) same_file_is_entry

  pub replace_same_file :
      (y : Text) (ps : List Text)
      → all_upgraded sys.canonical w.dirs ps ≡ true
      → replace_first (λ p. is_same_file sys dir p w) y ps
        ≡ replace_first (is_entry sys.canonical (sys.canonical dir)) y ps
  replace_same_file =
      replace_first_agrees sys.canonical w.dirs (λ p. is_same_file sys dir p w)
        (is_entry sys.canonical (sys.canonical dir)) entry_is_same_file

  any_same_file :
      (ps : List Text)
      → all_upgraded sys.canonical w.dirs ps ≡ true
      → any (λ p. is_same_file sys dir p w) ps ≡ is_listed sys.canonical (sys.canonical dir) ps
  any_same_file [] up = refl
  any_same_file (p ∷ ps) up = ground (arith, entry_is_same_file p, any_same_file ps)

  pub pending_is_listed :
      all_upgraded sys.canonical w.dirs w.key_dirs_to_commit ≡ true
      → is_key_commit_pending sys dir w
        ≡ is_listed sys.canonical (sys.canonical dir) w.key_dirs_to_commit
  unfolding is_key_commit_pending
  pending_is_listed = any_same_file w.key_dirs_to_commit

-- The directory `c` takes the name `new_name`.
module _ (canonical : Text → Text) (c new_name : Text) where
  abbrev moved : (Text → Option Dir) → Text → Option Dir
  moved dirs p =
      if text_eq p (canonical new_name) then dirs c else if text_eq p c then none else dirs p

  is_listed-replace :
      (k : Text) (ps : List Text)
      → is_listed canonical k ps ≡ false
      → text_eq k (canonical new_name) ≡ false
      → is_listed canonical k (replace_first (is_entry canonical c) new_name ps) ≡ false
  unfolding replace_first
  is_listed-replace k [] h e = refl
  is_listed-replace k (p ∷ ps) h e = ground (arith, is_listed-replace k ps)

  pub distinct_dirs-replace :
      (ps : List Text)
      → distinct_dirs canonical ps ≡ true
      → is_listed canonical (canonical new_name) ps ≡ false
      → distinct_dirs canonical (replace_first (is_entry canonical c) new_name ps) ≡ true
  unfolding replace_first
  distinct_dirs-replace [] d h = refl
  distinct_dirs-replace (p ∷ ps) d h = ground (
    arith,
    text_eq_sym (canonical p) (canonical new_name),
    is_listed-replace (canonical p) ps,
    distinct_dirs-replace ps,
  )

  moved_unlisted :
      (dirs : Text → Option Dir) (ps : List Text)
      → all_upgraded canonical dirs ps ≡ true
      → is_listed canonical c ps ≡ false
      → is_listed canonical (canonical new_name) ps ≡ false
      → all_upgraded canonical (moved dirs) ps ≡ true
  moved_unlisted dirs ps up hc hn =
      all_upgraded-set canonical (λ p. if text_eq p c then none else dirs p) (canonical new_name)
        (dirs c) ps (all_upgraded-set canonical dirs c none ps up (ground arith)) (ground arith)

  pub all_upgraded-replace :
      (dirs : Text → Option Dir) (ps : List Text)
      → all_upgraded canonical dirs ps ≡ true
      → distinct_dirs canonical ps ≡ true
      → is_listed canonical (canonical new_name) ps ≡ false
      → all_upgraded canonical (moved dirs) (replace_first (is_entry canonical c) new_name ps)
        ≡ true
  unfolding replace_first
  all_upgraded-replace dirs [] up d h = refl
  all_upgraded-replace dirs (p ∷ ps) up d h = elim (Bool-cases (text_eq c (canonical p))) [
    | inl e ↦
        let same = text_eq→eq c (canonical p) e in
        let head = ap (λ (k : Text). has_upgraded (dirs k)) same in
        let rest = ap (λ (k : Text). is_listed canonical k ps) same in
        ground (arith, moved_unlisted dirs ps, text_eq_refl (canonical new_name))
    | inr e ↦ ground (
      arith,
      text_eq_sym (canonical p) c,
      text_eq_sym (canonical p) (canonical new_name),
      all_upgraded-replace dirs ps,
    )
  ]

-- An entry is replaced by another name of its directory.
module _ (canonical : Text → Text) (c new_name : Text) (same : c ≡ canonical new_name) where
  renamed_entry :
      {A : Type 0} (f : Text → A) (p : Text)
      → is_entry canonical c p ≡ true
      → f (canonical new_name) ≡ f (canonical p)
  renamed_entry f p e = ap f (sym same ∙ text_eq→eq c (canonical p) e)

  is_listed_renamed :
      (k : Text) (ps : List Text)
      → is_listed canonical k (replace_first (is_entry canonical c) new_name ps)
        ≡ is_listed canonical k ps
  unfolding replace_first
  is_listed_renamed k [] = refl
  is_listed_renamed k (p ∷ ps) = ground (arith, renamed_entry (text_eq k) p, is_listed_renamed k ps)

  pub distinct_dirs_renamed :
      (ps : List Text)
      → distinct_dirs canonical (replace_first (is_entry canonical c) new_name ps)
        ≡ distinct_dirs canonical ps
  unfolding replace_first
  distinct_dirs_renamed [] = refl
  distinct_dirs_renamed (p ∷ ps) = ground (
    arith,
    renamed_entry (λ k. is_listed canonical k ps) p,
    is_listed_renamed (canonical p) ps,
    distinct_dirs_renamed ps,
  )

  pub all_upgraded_renamed :
      (dirs : Text → Option Dir) (ps : List Text)
      → all_upgraded canonical dirs (replace_first (is_entry canonical c) new_name ps)
        ≡ all_upgraded canonical dirs ps
  unfolding replace_first
  all_upgraded_renamed dirs [] = refl
  all_upgraded_renamed dirs (p ∷ ps) =
      ground (arith, renamed_entry (λ k. has_upgraded (dirs k)) p, all_upgraded_renamed dirs ps)
