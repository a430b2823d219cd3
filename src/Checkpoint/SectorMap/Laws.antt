-- ===== src/Checkpoint/SectorMap/Laws.antt =====
-- How the parts of a sector map fit together again.
use native.Mathlib.Decide.{dec_le}
use platform_system_vold.Base.{
  ℕ, suc, ◌<◌, ◌≤◌, ◌≡◌, refl, ap, ◌∙◌, sym, Bool, true, false, ◌&&◌, List, [], ◌∷◌, ◌++◌, Option,
  none, some, if◌then◌else◌, ltb, leb, arith, Option-cases, inl, inr,
}
use platform_system_vold.Checkpoint.SectorMap.{
  select, below, from, above, last?, or_else, floor, Ascends, IsMap,
}

module _ {V : Type 0} where
  pub select-append :
      (p : ℕ → Bool) (xs ys : List (ℕ × V)) → select p (xs ++ ys) ≡ select p xs ++ select p ys
  select-append p [] ys = refl
  select-append p ((k, v) ∷ xs) ys = ground (arith, select-append p xs ys)

  pub select-select :
      (p q : ℕ → Bool) (xs : List (ℕ × V)) → select p (select q xs) ≡ select (λ k. q k && p k) xs
  select-select p q [] = refl
  select-select p q ((k, v) ∷ xs) = ground (arith, select-select p q xs)

  -- Two tests that agree pick the same entries.
  pub select_agree :
      (p q : ℕ → Bool) (xs : List (ℕ × V)) → ((k : ℕ) → p k ≡ q k) → select p xs ≡ select q xs
  select_agree p q [] h = refl
  select_agree p q ((k, v) ∷ xs) h = ground (arith, h k, select_agree p q xs h)

  pub select_none : (p : ℕ → Bool) (xs : List (ℕ × V)) → ((k : ℕ) → p k ≡ false) → select p xs ≡ []
  select_none p [] h = refl
  select_none p ((k, v) ∷ xs) h = ground (arith, h k, select_none p xs h)

  pub or_else_assoc : (a b c : Option (ℕ × V)) → or_else (or_else a b) c ≡ or_else a (or_else b c)
  or_else_assoc (some a) b c = refl
  or_else_assoc none b c = refl

  pub last?-append : (xs ys : List (ℕ × V)) → last? (xs ++ ys) ≡ or_else (last? ys) (last? xs)
  unfolding last?
  last?-append [] ys = ground arith
  last?-append (e ∷ xs) ys = rw (last?-append xs ys) (or_else_assoc (last? ys) (last? xs) (some e))

  pub floor-append :
      (s : ℕ) (xs ys : List (ℕ × V)) → floor s (xs ++ ys) ≡ or_else (floor s ys) (floor s xs)
  unfolding floor
  floor-append s xs ys = rw (select-append (λ j. leb j s) xs ys) (last?-append _ _)

  pub floor-cons :
      (s k : ℕ) (v : V) (m : List (ℕ × V))
      → floor s ((k, v) ∷ m) ≡ or_else (floor s m) (if leb k s then some (k, v) else none)
  unfolding floor last?
  floor-cons s k v m = ground arith

  pub floor_nil : (s : ℕ) → floor {V = V} s [] ≡ none
  unfolding floor last?
  floor_nil s = refl

  -- Behind a bound there is nothing below it.
  pub below_none : (k lo : ℕ) (m : List (ℕ × V)) → Ascends lo m → k ≤ suc lo → below k m ≡ []
  unfolding below
  below_none k lo [] a h = refl
  below_none k lo ((j, v) ∷ m) a h = ground (arith, below_none k j m a.1)

  pub above_all : (k lo : ℕ) (m : List (ℕ × V)) → Ascends lo m → k ≤ lo → above k m ≡ m
  unfolding above
  above_all k lo [] a h = refl
  above_all k lo ((j, v) ∷ m) a h = ground (arith, above_all k j m a.1)

  pub from_all : (k lo : ℕ) (m : List (ℕ × V)) → Ascends lo m → k ≤ suc lo → from k m ≡ m
  unfolding from
  from_all k lo [] a h = refl
  from_all k lo ((j, v) ∷ m) a h = ground (arith, from_all k j m a.1)

  abbrev pub up_to : ℕ → List (ℕ × V) → List (ℕ × V)
  up_to k m = select (λ j. leb j k) m

  up_to_none : (k lo : ℕ) (m : List (ℕ × V)) → Ascends lo m → k ≤ lo → up_to k m ≡ []
  up_to_none k lo [] a h = refl
  up_to_none k lo ((j, v) ∷ m) a h = ground (arith, up_to_none k j m a.1)

  -- A map is cut in two behind any key.
  pub up_to-append-above : (k lo : ℕ) (m : List (ℕ × V)) → Ascends lo m → up_to k m ++ above k m ≡ m
  unfolding above
  up_to-append-above k lo [] a = refl
  up_to-append-above k lo ((j, v) ∷ m) a = elim (dec_le j k) [
    | yes h ↦ ground (arith, up_to-append-above k j m a.1)
    | no h ↦ ground (arith, up_to_none k j m a.1, above_all k j m a.1)
  ]

  Ascends-select :
      (p : ℕ → Bool) (lo lo' : ℕ) (m : List (ℕ × V))
      → lo' ≤ lo
      → Ascends lo m
      → Ascends lo' (select p m)
  Ascends-select p lo lo' [] h a = tt
  Ascends-select p lo lo' ((j, v) ∷ m) h a =
      ground (arith, Ascends-select p j j m, Ascends-select p j lo' m)

  pub floor-below : (s b : ℕ) (m : List (ℕ × V)) → s < b → floor s (below b m) ≡ floor s m
  unfolding floor below
  floor-below s b m h =
      ap last?
        (select-select (λ j. leb j s) (λ j. ltb j b) m ∙ select_agree _ _ m (λ k. ground arith))

  pub floor-above-none : (s b : ℕ) (m : List (ℕ × V)) → s ≤ b → floor s (above b m) ≡ none
  unfolding floor above last?
  floor-above-none s b m h =
      ap last? (select-select (λ j. leb j s) (λ j. ltb b j) m ∙ select_none _ m (λ k. ground arith))

  pub map_cut : (k : ℕ) (m : List (ℕ × V)) → IsMap m → up_to k m ++ above k m ≡ m
  unfolding above
  map_cut k [] a = absurd a
  map_cut k ((j, v) ∷ m) (e, a) =
      let z : leb j k ≡ true = ground arith in
      let n : ltb k j ≡ false = ground arith in
      rw (z, n) (ap (λ t. (j, v) ∷ t) (up_to-append-above k 0 m a))

  floor-up_to : (s b : ℕ) (m : List (ℕ × V)) → b ≤ s → floor s (up_to b m) ≡ floor b m
  unfolding floor
  floor-up_to s b m h = ap last? (
      select-select (λ j. leb j s) (λ j. leb j b) m
      ∙ select_agree _ (λ j. leb j b) m (λ k. ground arith))

  -- To look up a sector from `b` on, look behind `b` first, and then at `b`.
  pub floor_cut :
      (s b : ℕ) (m : List (ℕ × V))
      → IsMap m
      → b ≤ s
      → floor s m ≡ or_else (floor s (above b m)) (floor b m)
  floor_cut s b m a h =
      ap (floor s) (sym (map_cut b m a))
      ∙ floor-append s (up_to b m) (above b m)
      ∙ ap (or_else (floor s (above b m))) (floor-up_to s b m h)

  pub floor_le : (s : ℕ) (m : List (ℕ × V)) (k : ℕ) (v : V) → floor s m ≡ some (k, v) → k ≤ s
  unfolding floor last?
  floor_le s [] k v h = cc
  floor_le s ((j, w) ∷ m) k v h = ground (arith, floor-cons s j w m, floor_le s m k v)

  -- The lookup in a map never steps in front of the first entry.
  pub floor_total :
      (s : ℕ) (m : List (ℕ × V)) → IsMap m → (k : ℕ) × (v : V) × (floor s m ≡ some (k, v)) × (k ≤ s)
  floor_total s [] a = absurd a
  floor_total s ((j, w) ∷ m) (e, a) = elim (Option-cases (floor s m)) [
    | inl n ↦
        let z : leb j s ≡ true = ground arith in (j, w, rw (floor-cons s j w m, n, z), ground arith)
    | inr ((k, v), f) ↦ (k, v, rw (floor-cons s j w m, f), floor_le s m k v f)
  ]
