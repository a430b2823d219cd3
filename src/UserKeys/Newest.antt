-- ===== src/UserKeys/Newest.antt =====
-- FsCrypt.cpp: the path of a new CE key beside those of the others.
use platform_system_vold.Base.{
  ℕ, zero, suc, ◌+◌, ◌≡◌, refl, sym, ap, ◌∙◌, Bool, true, false, not, ◌&&◌, List, [], ◌∷◌, ◌++◌,
  some, all, any, arith, Text, codes, text_eq, text_eq→eq, Bool-cases, inl, inr,
}
use platform_system_vold.UserKeys.Paths.{
  Entry, key_paths, get_ce_key_paths, text_lt, put_newest, newest_first, candidate, ten_digits,
  find_candidate, uint_max, get_ce_key_new_path,
}

text_lt_irreflexive : (s : Text) → text_lt s s ≡ false
unfolding text_lt
text_lt_irreflexive [] = refl
text_lt_irreflexive (c ∷ s) = ground (arith, text_lt_irreflexive s)

-- What is not behind `p` is before whatever is behind `p`.
before_behind : (x p c : Text) → text_lt p x ≡ false → text_lt p c ≡ true → text_lt x c ≡ true
unfolding text_lt
before_behind [] p [] h h' = ground arith
before_behind [] p (c ∷ cs) h h' = refl
before_behind (x ∷ xs) [] cs h h' = cc
before_behind (x ∷ xs) (p ∷ ps) [] h h' = cc
before_behind (x ∷ xs) (p ∷ ps) (c ∷ cs) h h' = ground (arith, before_behind xs ps cs)

-- No path is behind the first of them.
abbrev IsLed : List Text → Type 0
IsLed [] = Unit {0}
IsLed (p ∷ ps) = all (λ x. not (text_lt p x)) ps ≡ true

find_candidate_behind :
    (rounds i : ℕ) (dir newest c : Text)
    → find_candidate rounds i dir newest ≡ some c
    → text_lt newest c ≡ true
unfolding find_candidate
find_candidate_behind zero i dir newest c h = cc
find_candidate_behind (suc rounds) i dir newest c h =
    elim (Bool-cases (text_lt newest (candidate dir i))) [
      | inl e ↦ ground arith
      | inr e ↦ find_candidate_behind rounds (i + 1) dir newest c (rw (find_candidate, e) at h)
    ]

-- Nothing that is before `c` is `c`.
any_lt : (c : Text) (xs : List Text) → all (λ x. text_lt x c) xs ≡ true → any (text_eq c) xs ≡ false
any_lt c [] h = refl
any_lt c (x ∷ xs) h =
    let rest = any_lt c xs in
    elim (Bool-cases (text_eq c x)) [
      | inl e ↦
          let same = text_eq→eq c x e in let irreflexive = text_lt_irreflexive c in ground arith
      | inr e ↦ ground arith
    ]

put_newest-all :
    (f : Text → Bool) (x : Text) (xs : List Text) → all f (put_newest x xs) ≡ (f x && all f xs)
unfolding put_newest
put_newest-all f x [] = refl
put_newest-all f x (y ∷ ys) = ground (arith, put_newest-all f x ys)

newest_first-all : (f : Text → Bool) (xs : List Text) → all f (newest_first xs) ≡ all f xs
unfolding newest_first
newest_first-all f [] = refl
newest_first-all f (x ∷ xs) = rw (put_newest-all f x (newest_first xs), newest_first-all f xs) refl

text_lt_asymmetric : (s t : Text) → text_lt s t ≡ true → text_lt t s ≡ false
unfolding text_lt
text_lt_asymmetric [] [] h = refl
text_lt_asymmetric [] (y ∷ ys) h = refl
text_lt_asymmetric (x ∷ xs) [] h = cc
text_lt_asymmetric (x ∷ xs) (y ∷ ys) h = ground (arith, text_lt_asymmetric xs ys)

-- What is not behind `p` is not behind what is behind `p`.
all_before :
    (p q : Text) (xs : List Text)
    → text_lt p q ≡ true
    → all (λ x. not (text_lt p x)) xs ≡ true
    → all (λ x. not (text_lt q x)) xs ≡ true
all_before p q [] h h' = refl
all_before p q (x ∷ xs) h h' =
    let before = all_before p q xs h in ground (arith, before_behind x p q, text_lt_asymmetric x q)

put_newest-IsLed : (x : Text) (xs : List Text) → IsLed xs → IsLed (put_newest x xs)
unfolding put_newest
put_newest-IsLed x [] h = refl
put_newest-IsLed x (y ∷ ys) h = elim (Bool-cases (text_lt y x)) [
  | inl e ↦ rw e (ground (arith, all_before y x ys, text_lt_asymmetric y x))
  | inr e ↦ rw (e, put_newest-all (λ z. not (text_lt y z)) x ys, e) h
]

newest_first-IsLed : (xs : List Text) → IsLed (newest_first xs)
unfolding newest_first
newest_first-IsLed [] = tt
newest_first-IsLed (x ∷ xs) = put_newest-IsLed x (newest_first xs) (newest_first-IsLed xs)

all_lt :
    (p c : Text) (xs : List Text)
    → text_lt p c ≡ true
    → all (λ x. not (text_lt p x)) xs ≡ true
    → all (λ x. text_lt x c) xs ≡ true
all_lt p c [] h h' = refl
all_lt p c (x ∷ xs) h h' = let before = all_lt p c xs h in ground (arith, before_behind x p c)

put_newest_first :
    (c : Text) (xs : List Text) → all (λ x. text_lt x c) xs ≡ true → put_newest c xs ≡ c ∷ xs
unfolding put_newest
put_newest_first c [] h = refl
put_newest_first c (x ∷ xs) h = ground arith

put_newest_second :
    (x c : Text) (xs : List Text) → text_lt x c ≡ true → put_newest x (c ∷ xs) ≡ c ∷ put_newest x xs
unfolding put_newest
put_newest_second x c xs h = rw (text_lt_asymmetric x c h) refl

-- What is behind all others is the first, wherever it stands.
newest_first-first :
    (c : Text) (xs ys : List Text)
    → all (λ x. text_lt x c) (xs ++ ys) ≡ true
    → newest_first (xs ++ (c ∷ ys)) ≡ c ∷ newest_first (xs ++ ys)
unfolding newest_first
newest_first-first c [] ys h =
    put_newest_first c (newest_first ys) (newest_first-all (λ x. text_lt x c) ys ∙ h)
newest_first-first c (x ∷ xs) ys h =
    let rest = newest_first-first c xs ys in
    rw (newest_first-first c xs ys (ground arith))
      (put_newest_second x c (newest_first (xs ++ ys)) (ground arith))

-- The path of a new key among the keys'.
named :
    (rounds i : ℕ) (dir newest c : Text)
    → find_candidate rounds i dir newest ≡ some c
    → (s : Text) × (c ≡ dir ++ (b'/' ∷ b'c' ∷ s))
unfolding find_candidate candidate
named zero i dir newest c h = cc
named (suc rounds) i dir newest c h = elim (Bool-cases (text_lt newest (candidate dir i))) [
  | inl e ↦ (b'x' ∷ ten_digits i, ground arith)
  | inr e ↦ named rounds (i + 1) dir newest c (rw (find_candidate, e) at h)
]

key_paths-append :
    (dir : Text) (es es' : List Entry)
    → key_paths dir (es ++ es') ≡ key_paths dir es ++ key_paths dir es'
unfolding key_paths
key_paths-append dir [] es' = refl
key_paths-append dir (e ∷ es) es' = ground (arith, key_paths-append dir es es')

abbrev IsPlaced : Text → Text → List Text → Type 0
IsPlaced directory_path c paths =
    (s : Text) × (c ≡ directory_path ++ (b'/' ∷ b'c' ∷ s)) × (all (λ x. text_lt x c) paths ≡ true)

placed :
    (directory_path c : Text) (paths : List Text)
    → IsLed paths
    → get_ce_key_new_path directory_path paths ≡ some c
    → IsPlaced directory_path c paths
unfolding get_ce_key_new_path
placed directory_path c [] led h = (codes "urrent", ground arith, refl)
placed directory_path c (p ∷ ps) led h =
    let behind = find_candidate_behind uint_max 0 directory_path p c h in
    let none_behind : all (λ x. not (text_lt p x)) (p ∷ ps) ≡ true =
      ground (arith, text_lt_irreflexive p) in
    let (s, same) = named uint_max 0 directory_path p c h in
    (s, same, all_lt p c (p ∷ ps) behind none_behind)

abbrev pub key_entry : Text → Entry
key_entry name = record { is_dir = true; d_name = name }

listed :
    (dir c s : Text) (es es' : List Entry)
    → c ≡ dir ++ (b'/' ∷ b'c' ∷ s)
    → key_paths dir (es ++ (key_entry (b'c' ∷ s) ∷ es'))
      ≡ key_paths dir es ++ (c ∷ key_paths dir es')
unfolding key_paths
listed dir c s es es' same = rw (key_paths-append dir es (key_entry (b'c' ∷ s) ∷ es'), same) refl

-- Where the directory of a user's keys can be read and a path is found for a new key: the path is
-- the directory's, a slash and a name, it is none of the paths of the user's keys, and wherever the
-- directory then lists a directory of that name, it is the first of the user's keys, newest first, and
-- the others follow as before.
pub get_ce_key_new_path_newest :
    (directory_path c : Text) (es es' : List Entry)
    → get_ce_key_new_path directory_path (get_ce_key_paths directory_path (some (es ++ es')))
      ≡ some c
    → (name : Text) × (c ≡ directory_path ++ (b'/' ∷ name))
      × (any (text_eq c) (get_ce_key_paths directory_path (some (es ++ es'))) ≡ false)
      × (get_ce_key_paths directory_path (some (es ++ (key_entry name ∷ es')))
          ≡ c ∷ get_ce_key_paths directory_path (some (es ++ es')))
unfolding get_ce_key_paths
get_ce_key_new_path_newest directory_path c es es' h =
    let paths = key_paths directory_path (es ++ es') in
    let (s, same, before) =
      placed directory_path c (newest_first paths) (newest_first-IsLed paths) h in
    let before' : all (λ x. text_lt x c)
          (key_paths directory_path es ++ key_paths directory_path es')
        ≡ true =
      ap (all (λ x. text_lt x c)) (sym (key_paths-append directory_path es es'))
      ∙ (sym (newest_first-all (λ x. text_lt x c) paths) ∙ before) in
    (
      b'c' ∷ s,
      same,
      any_lt c (newest_first paths) before,
      rw (listed directory_path c s es es' same, key_paths-append directory_path es es')
          (newest_first-first c (key_paths directory_path es) (key_paths directory_path es')
            before'),
    )
