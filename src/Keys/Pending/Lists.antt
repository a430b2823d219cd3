-- ===== src/Keys/Pending/Lists.antt =====
-- KeyStorage.cpp: lists of key directories, which are told apart by their canonical paths.
use platform_system_vold.Base.{
  ◌≡◌, refl, sym, ap, ◌∙◌, Bool, true, false, not, ◌&&◌, ◌||◌, List, [], ◌∷◌, ◌++◌, Option,
  if◌then◌else◌, arith, Text, text_eq, text_eq_refl, text_eq→eq, Bool-cases, inl, inr,
}
use platform_system_vold.Keys.World.{keymaster_key_blob_upgraded, Dir}
use platform_system_vold.Keys.Act.{is_some}
use platform_system_vold.Keys.Calls.{content_of}
use platform_system_vold.Keys.Upgrades.{erase_first}

abbrev pub has_upgraded : Option Dir → Bool
has_upgraded d = is_some (content_of d keymaster_key_blob_upgraded)

pub text_eq_sym : (s t : Text) → text_eq s t ≡ true → text_eq t s ≡ true
text_eq_sym s t h = rw (text_eq→eq s t h) (text_eq_refl t)

module _ (canonical : Text → Text) where
  abbrev pub is_listed : Text → List Text → Bool
  is_listed c [] = false
  is_listed c (p ∷ ps) = text_eq c (canonical p) || is_listed c ps

  -- No directory is listed twice.
  abbrev pub distinct_dirs : List Text → Bool
  distinct_dirs [] = true
  distinct_dirs (p ∷ ps) = not (is_listed (canonical p) ps) && distinct_dirs ps

  -- Each listed directory holds an upgraded key.
  abbrev pub all_upgraded : (Text → Option Dir) → List Text → Bool
  all_upgraded dirs [] = true
  all_upgraded dirs (p ∷ ps) = has_upgraded (dirs (canonical p)) && all_upgraded dirs ps

  pub listed_upgraded :
      (dirs : Text → Option Dir) (c : Text) (ps : List Text)
      → all_upgraded dirs ps ≡ true
      → is_listed c ps ≡ true
      → has_upgraded (dirs c) ≡ true
  listed_upgraded dirs c [] up h = cc
  listed_upgraded dirs c (p ∷ ps) up h = elim (Bool-cases (text_eq c (canonical p))) [
    | inl e ↦ ap (λ (k : Text). has_upgraded (dirs k)) (text_eq→eq c (canonical p) e) ∙ ground arith
    | inr e ↦ listed_upgraded dirs c ps (ground arith) (ground arith)
  ]

  -- A directory changes that is not listed, or that has an upgraded key afterwards.
  pub all_upgraded-set :
      (dirs : Text → Option Dir) (c : Text) (d : Option Dir) (ps : List Text)
      → all_upgraded dirs ps ≡ true
      → (not (is_listed c ps) || has_upgraded d) ≡ true
      → all_upgraded (λ p. if text_eq p c then d else dirs p) ps ≡ true
  all_upgraded-set dirs c d [] up h = refl
  all_upgraded-set dirs c d (p ∷ ps) up h =
      ground (arith, text_eq_sym (canonical p) c, all_upgraded-set dirs c d ps)

  pub is_listed-append :
      (c x : Text) (ps : List Text)
      → is_listed c (ps ++ (x ∷ [])) ≡ (is_listed c ps || text_eq c (canonical x))
  is_listed-append c x [] = ground arith
  is_listed-append c x (p ∷ ps) = ground (arith, is_listed-append c x ps)

  pub distinct_dirs-append :
      (x : Text) (ps : List Text)
      → distinct_dirs ps ≡ true
      → is_listed (canonical x) ps ≡ false
      → distinct_dirs (ps ++ (x ∷ [])) ≡ true
  distinct_dirs-append x [] d h = refl
  distinct_dirs-append x (p ∷ ps) d h = ground (
    arith,
    text_eq_sym (canonical p) (canonical x),
    is_listed-append (canonical p) x ps,
    distinct_dirs-append x ps,
  )

  pub all_upgraded-append :
      (dirs : Text → Option Dir) (x : Text) (ps : List Text)
      → all_upgraded dirs ps ≡ true
      → has_upgraded (dirs (canonical x)) ≡ true
      → all_upgraded dirs (ps ++ (x ∷ [])) ≡ true
  all_upgraded-append dirs x [] up h = ground arith
  all_upgraded-append dirs x (p ∷ ps) up h = ground (arith, all_upgraded-append dirs x ps)

  -- The entry of a directory is erased.
  module _ (c : Text) where
    abbrev pub is_entry : Text → Bool
    is_entry p = text_eq c (canonical p)

    pub is_listed-erase :
        (k : Text) (ps : List Text)
        → is_listed k ps ≡ false
        → is_listed k (erase_first is_entry ps) ≡ false
    unfolding erase_first
    is_listed-erase k [] h = refl
    is_listed-erase k (p ∷ ps) h = ground (arith, is_listed-erase k ps)

    pub distinct_dirs-erase :
        (ps : List Text) → distinct_dirs ps ≡ true → distinct_dirs (erase_first is_entry ps) ≡ true
    unfolding erase_first
    distinct_dirs-erase [] d = refl
    distinct_dirs-erase (p ∷ ps) d =
        ground (arith, is_listed-erase (canonical p) ps, distinct_dirs-erase ps)

    pub all_upgraded-erase :
        (dirs : Text → Option Dir) (ps : List Text)
        → all_upgraded dirs ps ≡ true
        → all_upgraded dirs (erase_first is_entry ps) ≡ true
    unfolding erase_first
    all_upgraded-erase dirs [] up = refl
    all_upgraded-erase dirs (p ∷ ps) up = ground (arith, all_upgraded-erase dirs ps)

    same_listed :
        (p : Text) (ps : List Text)
        → is_entry p ≡ true
        → is_listed (canonical p) ps ≡ is_listed c ps
    same_listed p ps e = ap (λ (k : Text). is_listed k ps) (sym (text_eq→eq c (canonical p) e))

    pub erased_unlisted :
        (ps : List Text) → distinct_dirs ps ≡ true → is_listed c (erase_first is_entry ps) ≡ false
    unfolding erase_first
    erased_unlisted [] d = refl
    erased_unlisted (p ∷ ps) d = ground (arith, same_listed p ps, erased_unlisted ps)
