-- ===== src/Checkpoint/SectorMap.antt =====
-- Checkpoint.cpp: the `std::map`s from sectors, as lists of entries with ascending keys. Each
-- operation is what the C++ call does on such a list; an iterator is named by the key it stands at.
pub mod Laws
pub mod Parts
pub mod Bounds
use platform_system_vold.Base.{
  ℕ, ◌<◌, ◌≡◌, Bool, true, false, not, List, [], ◌∷◌, ◌++◌, Option, none, some, if◌then◌else◌, ltb,
  leb, ◌==◌, any,
}

module _ {V : Type 0} where
  abbrev pub select : (ℕ → Bool) → List (ℕ × V) → List (ℕ × V)
  select p [] = []
  select p ((k, v) ∷ m) = let rest = select p m in if p k then (k, v) ∷ rest else rest

  -- The entries in front of `lower_bound(k)`.
  unfoldable pub below : ℕ → List (ℕ × V) → List (ℕ × V)
  below k m = select (λ j. ltb j k) m

  -- The entries from `lower_bound(k)` on.
  unfoldable pub from : ℕ → List (ℕ × V) → List (ℕ × V)
  from k m = select (λ j. leb k j) m

  -- The entries from `upper_bound(k)` on.
  unfoldable pub above : ℕ → List (ℕ × V) → List (ℕ × V)
  above k m = select (λ j. ltb k j) m

  unfoldable pub first? : List (ℕ × V) → Option (ℕ × V)
  first? [] = none
  first? (e ∷ m) = some e

  abbrev pub or_else : Option (ℕ × V) → Option (ℕ × V) → Option (ℕ × V)
  or_else (some e) d = some e
  or_else none d = d

  unfoldable pub last? : List (ℕ × V) → Option (ℕ × V)
  last? [] = none
  last? (e ∷ m) = or_else (last? m) (some e)

  -- `--upper_bound(s)`: the last entry whose key is at most `s`. `none` where the map begins behind
  -- `s`, so that the source would step in front of its first entry.
  unfoldable pub floor : ℕ → List (ℕ × V) → Option (ℕ × V)
  floor s m = last? (select (λ j. leb j s) m)

  -- `insert_or_assign`, and `m[k] = v`.
  unfoldable pub insert_or_assign : ℕ → V → List (ℕ × V) → List (ℕ × V)
  insert_or_assign k v m = below k m ++ ((k, v) ∷ above k m)

  unfoldable pub has_key : ℕ → List (ℕ × V) → Bool
  has_key k m = any (λ e. e.0 == k) m

  -- `insert` of a range: a key that is there keeps its value.
  unfoldable pub insert_all : List (ℕ × V) → List (ℕ × V) → List (ℕ × V)
  unfolding has_key
  insert_all [] m = m
  insert_all ((k, v) ∷ es) m = insert_all es (if has_key k m then m else insert_or_assign k v m)

  -- `erase` of the entries whose keys are in [lo, hi).
  unfoldable pub erase_range : ℕ → ℕ → List (ℕ × V) → List (ℕ × V)
  erase_range lo hi m = below lo m ++ from hi m

  -- All keys are above `lo` and ascend.
  abbrev pub Ascends : ℕ → List (ℕ × V) → Type 0
  Ascends lo [] = Unit {0}
  Ascends lo ((k, v) ∷ m) = (lo < k) × Ascends k m

  -- A map that the program keeps: its first key is 0.
  abbrev pub IsMap : List (ℕ × V) → Type 0
  IsMap [] = ⊥
  IsMap ((k, v) ∷ m) = (k ≡ 0) × Ascends 0 m
