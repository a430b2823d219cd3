-- ===== src/Checkpoint/SectorMap/Parts.antt =====
-- Lists of entries on one side of a key, and what the operations make of two such lists in a row.
use mathlib.Core.List.{append_assoc, append-nil}
use platform_system_vold.Base.{
  ℕ, suc, ◌<◌, ◌≤◌, ◌≡◌, refl, ap, ap₂, ◌∙◌, sym, false, ◌&&◌, List, [], ◌∷◌, ◌++◌, ltb, leb, arith,
}
use platform_system_vold.Checkpoint.SectorMap.{
  below, from, above, insert_or_assign, insert_all, erase_range, has_key,
}
use platform_system_vold.Checkpoint.SectorMap.Laws.{
  select-append, select-select, select_agree, select_none,
}

module _ {V : Type 0} where
  abbrev pub AllBelow : ℕ → List (ℕ × V) → Type 0
  AllBelow n [] = Unit {0}
  AllBelow n ((k, v) ∷ m) = (k < n) × AllBelow n m

  abbrev pub AllFrom : ℕ → List (ℕ × V) → Type 0
  AllFrom n [] = Unit {0}
  AllFrom n ((k, v) ∷ m) = (n ≤ k) × AllFrom n m

  pub AllBelow-below : (n : ℕ) (m : List (ℕ × V)) → AllBelow n (below n m)
  unfolding below
  AllBelow-below n [] = tt
  AllBelow-below n ((k, v) ∷ m) = ground (arith, AllBelow-below n m)

  pub AllFrom-above : (n : ℕ) (m : List (ℕ × V)) → AllFrom n (above n m)
  unfolding above
  AllFrom-above n [] = tt
  AllFrom-above n ((k, v) ∷ m) = ground (arith, AllFrom-above n m)

  pub AllFrom-above-suc : (n : ℕ) (m : List (ℕ × V)) → AllFrom (suc n) (above n m)
  unfolding above
  AllFrom-above-suc n [] = tt
  AllFrom-above-suc n ((k, v) ∷ m) = ground (arith, AllFrom-above-suc n m)

  pub AllBelow-snoc :
      (n k : ℕ) (v : V) (m : List (ℕ × V))
      → AllBelow n m
      → n ≤ k
      → AllBelow (suc k) (m ++ ((k, v) ∷ []))
  AllBelow-snoc n k v [] a h = omega arith
  AllBelow-snoc n k v ((j, w) ∷ m) a h = (omega arith, AllBelow-snoc n k v m a.1 h)

  pub below_whole : (n k : ℕ) (m : List (ℕ × V)) → AllBelow n m → n ≤ k → below k m ≡ m
  unfolding below
  below_whole n k [] a h = refl
  below_whole n k ((j, w) ∷ m) a h = ground (arith, below_whole n k m)

  pub above_empty : (n k : ℕ) (m : List (ℕ × V)) → AllBelow n m → n ≤ suc k → above k m ≡ []
  unfolding above
  above_empty n k [] a h = refl
  above_empty n k ((j, w) ∷ m) a h = ground (arith, above_empty n k m)

  pub below_empty : (n k : ℕ) (m : List (ℕ × V)) → AllFrom n m → k ≤ n → below k m ≡ []
  unfolding below
  below_empty n k [] a h = refl
  below_empty n k ((j, w) ∷ m) a h = ground (arith, below_empty n k m)

  pub above_whole : (n k : ℕ) (m : List (ℕ × V)) → AllFrom n m → k < n → above k m ≡ m
  unfolding above
  above_whole n k [] a h = refl
  above_whole n k ((j, w) ∷ m) a h = ground (arith, above_whole n k m)

  pub from_whole : (n k : ℕ) (m : List (ℕ × V)) → AllFrom n m → k ≤ n → from k m ≡ m
  unfolding from
  from_whole n k [] a h = refl
  from_whole n k ((j, w) ∷ m) a h = ground (arith, from_whole n k m)

  has_key_no :
      (k n : ℕ) (xs ys : List (ℕ × V))
      → AllBelow k xs
      → AllFrom n ys
      → k < n
      → has_key k (xs ++ ys) ≡ false
  unfolding has_key
  has_key_no k n [] [] a b h = refl
  has_key_no k n [] ((j, w) ∷ ys) a b h = ground (arith, has_key_no k n [] ys tt b.1)
  has_key_no k n ((j, w) ∷ xs) ys a b h = ground (arith, has_key_no k n xs ys a.1 b)

  -- A key between two lists is put between them.
  pub insert_between :
      (k n : ℕ) (v : V) (xs ys : List (ℕ × V))
      → AllBelow k xs
      → AllFrom n ys
      → k < n
      → insert_or_assign k v (xs ++ ys) ≡ xs ++ ((k, v) ∷ ys)
  unfolding insert_or_assign below above
  insert_between k n v xs ys a b h =
      ap₂ (λ s t. s ++ ((k, v) ∷ t))
        (select-append (λ j. ltb j k) xs ys
          ∙ ap₂ ◌++◌ (below_whole k k xs a (omega arith)) (below_empty n k ys b (omega arith))
          ∙ append-nil xs)
        (select-append (λ j. ltb k j) xs ys
          ∙ ap₂ ◌++◌ (above_empty k k xs a (omega arith)) (above_whole n k ys b h))

  pub insert_at_end :
      (k : ℕ) (v : V) (xs : List (ℕ × V))
      → AllBelow k xs
      → insert_or_assign k v xs ≡ xs ++ ((k, v) ∷ [])
  insert_at_end k v xs a =
      ap (insert_or_assign k v) (sym (append-nil xs))
      ∙ insert_between k (suc k) v xs [] a tt (omega arith)

  -- Ascending keys in [lo, hi).
  abbrev pub Within : ℕ → ℕ → List (ℕ × V) → Type 0
  Within lo hi [] = Unit {0}
  Within lo hi ((k, v) ∷ m) = (lo ≤ k) × (k < hi) × Within (suc k) hi m

  pub AllBelow-mono : (n k : ℕ) (m : List (ℕ × V)) → AllBelow n m → n ≤ k → AllBelow k m
  AllBelow-mono n k [] a h = tt
  AllBelow-mono n k ((j, w) ∷ m) a h = (omega arith, AllBelow-mono n k m a.1 h)

  -- So is an ascending list of entries.
  pub insert_all_between :
      (lo hi : ℕ) (es xs ys : List (ℕ × V))
      → AllBelow lo xs
      → Within lo hi es
      → AllFrom hi ys
      → insert_all es (xs ++ ys) ≡ xs ++ (es ++ ys)
  unfolding insert_all
  insert_all_between lo hi [] xs ys a w b = refl
  insert_all_between lo hi ((k, v) ∷ es) xs ys a w b =
      let a' = AllBelow-mono lo k xs a w.0 in
      rw (has_key_no k hi xs ys a' b w.1) (
        rw (insert_between k hi v xs ys a' b w.1) (
          ap (insert_all es) (sym (append_assoc xs ((k, v) ∷ []) ys))
          ∙ insert_all_between (suc k) hi es (xs ++ ((k, v) ∷ [])) ys
              (AllBelow-snoc k k v xs a' (omega arith)) w.2 b
          ∙ append_assoc xs ((k, v) ∷ []) (es ++ ys)))

  pub below_append : (k : ℕ) (xs ys : List (ℕ × V)) → below k (xs ++ ys) ≡ below k xs ++ below k ys
  unfolding below
  below_append k xs ys = select-append (λ j. ltb j k) xs ys

  pub from_append : (k : ℕ) (xs ys : List (ℕ × V)) → from k (xs ++ ys) ≡ from k xs ++ from k ys
  unfolding from
  from_append k xs ys = select-append (λ j. leb k j) xs ys

  below-below : (lo hi : ℕ) (m : List (ℕ × V)) → lo ≤ hi → below lo (below hi m) ≡ below lo m
  unfolding below
  below-below lo hi m h =
      select-select _ _ m
      ∙ select_agree (λ j. ltb j hi && ltb j lo) (λ j. ltb j lo) m (λ k. ground arith)

  from-below : (k : ℕ) (m : List (ℕ × V)) → from k (below k m) ≡ []
  unfolding from below
  from-below k m = select-select _ _ m ∙ select_none (λ j. ltb j k && leb k j) m (λ j. ground arith)

  -- Cutting out [lo, hi) after a split at `hi`.
  pub erase_split :
      (lo hi : ℕ) (v : V) (m : List (ℕ × V))
      → lo ≤ hi
      → erase_range lo hi (insert_or_assign hi v m) ≡ below lo m ++ ((hi, v) ∷ above hi m)
  unfolding erase_range insert_or_assign
  erase_split lo hi v m h =
      ap₂ (λ s t. s ++ t)
        (below_append lo (below hi m) back
          ∙ ap₂ ◌++◌ (below-below lo hi m h) (below_empty hi lo back behind h)
          ∙ append-nil (below lo m))
        (from_append hi (below hi m) back
          ∙ ap₂ ◌++◌ (from-below hi m) (from_whole hi hi back behind (omega arith)))
    where
      back : List (ℕ × V)
      back = (hi, v) ∷ above hi m

      behind : AllFrom hi back
      behind = (omega arith, AllFrom-above hi m)

  pub above-above : (lo hi : ℕ) (m : List (ℕ × V)) → lo ≤ hi → above hi (above lo m) ≡ above hi m
  unfolding above
  above-above lo hi m h =
      select-select _ _ m
      ∙ select_agree (λ j. ltb lo j && ltb hi j) (λ j. ltb hi j) m (λ k. ground arith)

  pub above_append : (k : ℕ) (xs ys : List (ℕ × V)) → above k (xs ++ ys) ≡ above k xs ++ above k ys
  unfolding above
  above_append k xs ys = select-append (λ j. ltb k j) xs ys

  pub below_keep :
      (n k : ℕ) (v : V) (m : List (ℕ × V)) → k < n → below n ((k, v) ∷ m) ≡ (k, v) ∷ below n m
  unfolding below
  below_keep n k v m h = ground arith

  pub above_drop : (n k : ℕ) (v : V) (m : List (ℕ × V)) → k ≤ n → above n ((k, v) ∷ m) ≡ above n m
  unfolding above
  above_drop n k v m h = ground arith

  pub AllFrom-below : (n k : ℕ) (m : List (ℕ × V)) → AllFrom n m → AllFrom n (below k m)
  unfolding below
  AllFrom-below n k [] a = tt
  AllFrom-below n k ((j, w) ∷ m) a = ground (arith, AllFrom-below n k m a.1)

  pub AllFrom-append :
      (n : ℕ) (xs ys : List (ℕ × V)) → AllFrom n xs → AllFrom n ys → AllFrom n (xs ++ ys)
  AllFrom-append n [] ys a b = b
  AllFrom-append n ((j, w) ∷ xs) ys a b = (a.0, AllFrom-append n xs ys a.1 b)

  pub from_empty : (n k : ℕ) (m : List (ℕ × V)) → AllBelow n m → n ≤ k → from k m ≡ []
  unfolding from
  from_empty n k [] a h = refl
  from_empty n k ((j, w) ∷ m) a h = ground (arith, from_empty n k m)

  pub from_drop : (n k : ℕ) (v : V) (m : List (ℕ × V)) → k < n → from n ((k, v) ∷ m) ≡ from n m
  unfolding from
  from_drop n k v m h = ground arith

  pub AllFrom-zero : (m : List (ℕ × V)) → AllFrom 0 m
  AllFrom-zero [] = tt
  AllFrom-zero ((k, v) ∷ m) = (omega arith, AllFrom-zero m)
