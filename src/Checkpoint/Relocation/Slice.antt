-- ===== src/Checkpoint/Relocation/Slice.antt =====
-- The slice that `relocate` builds: the entries of the source range, moved to the destination.
use mathlib.Core.List.{append_assoc, append-nil}
use platform_system_vold.Base.{
  ℕ, suc, ◌+◌, ◌-◌, ◌<◌, ◌≤◌, ◌≡◌, refl, ap, ◌∙◌, sym, true, false, [], ◌∷◌, ◌++◌, Option, none,
  some, ltb, leb, arith, if◌then◌else◌, lt→ltb, ltb→lt, Bool-cases, inl, inr,
}
use native.Mathlib.Decide.{dec_lt}
use platform_system_vold.Checkpoint.SectorMap.{below, above, floor, Ascends, or_else}
use platform_system_vold.Checkpoint.SectorMap.Laws.{floor-cons, floor_nil, below_none}
use platform_system_vold.Checkpoint.SectorMap.Parts.{
  AllBelow, AllBelow-snoc, AllBelow-mono, insert_at_end, Within,
}
use platform_system_vold.Checkpoint.Relocation.{Relocations, u64_mod, sub_add64, slice_loop}

abbrev pub shift : (dest source : ℕ) → Relocations → Relocations
shift dest source [] = []
shift dest source ((k, v) ∷ m) = (sub_add64 dest source k, v) ∷ shift dest source m

-- A range of sectors that `uint64_t` can count to its end, and that is not empty.
pub record IsRange (dest source count : ℕ) : Type 0 where
  pub some_sectors : 0 < count
  pub dest_fits : dest + count < u64_mod
  pub source_fits : source + count < u64_mod

module _ (dest source count : ℕ) (range : IsRange dest source count) where
  -- The entries in the source range behind its start.
  abbrev pub inner : Relocations → Relocations
  inner m = below (source + count) (above source m)

  pub shift_key :
      (k : ℕ) → source ≤ k → k < source + count → sub_add64 dest source k ≡ dest + (k - source)
  shift_key k h l = omega (arith, range.dest_fits, range.source_fits)

  pub slice_loop-append :
      (slice m : Relocations) (lo : ℕ)
      → source ≤ lo
      → Ascends lo m
      → AllBelow (suc (dest + (lo - source))) slice
      → slice_loop dest source (source + count) slice m
        ≡ slice ++ shift dest source (below (source + count) m)
  unfolding slice_loop below
  slice_loop-append slice [] lo h a b = sym (append-nil slice)
  slice_loop-append slice ((k, v) ∷ m) lo h a b = elim (dec_lt k (source + count)) [
    | yes l ↦
        let test : ltb k (source + count) ≡ true = lt→ltb _ _ l in
        let key = dest + (k - source) in
        let room = AllBelow-mono _ key slice b (omega arith) in
        rw (test, shift_key k (omega arith) l)
          (ap (λ s. slice_loop dest source (source + count) s m) (insert_at_end key v slice room)
            ∙ slice_loop-append (slice ++ ((key, v) ∷ [])) m k (omega arith) a.1
                (AllBelow-snoc key key v slice room (omega arith))
            ∙ append_assoc slice ((key, v) ∷ []) (shift dest source (below (source + count) m)))
    | no n ↦
        let test : ltb k (source + count) ≡ false = ground arith in
        rw (test, below_none (source + count) k m a.1 (omega arith)) (sym (append-nil slice))
  ]

  -- The slice of the source range, whose first entry is the one that covers the range's start.
  abbrev pub slice_of : Relocations → (k v : ℕ) → Relocations
  slice_of m k v = (dest, sub_add64 source k v) ∷ shift dest source (inner m)

  pub Within-shift :
      (m : Relocations) (lo : ℕ)
      → source ≤ lo
      → Ascends lo m
      → Within
          (suc (dest + (lo - source)))
          (dest + count)
          (shift dest source (below (source + count) m))
  unfolding below
  Within-shift [] lo h a = tt
  Within-shift ((k, v) ∷ m) lo h a = elim (dec_lt k (source + count)) [
    | yes l ↦
        let test : ltb k (source + count) ≡ true = lt→ltb _ _ l in
        rw (test, shift_key k (omega arith) l)
          (omega arith, omega arith, Within-shift m k (omega arith) a.1)
    | no n ↦
        let test : ltb k (source + count) ≡ false = ground arith in
        rw (test, below_none (source + count) k m a.1 (omega arith)) tt
  ]

  -- The entry that stands in the slice for one of the source range.
  abbrev pub moved : Option (ℕ × ℕ) → Option (ℕ × ℕ)
  moved none = none
  moved (some (k, v)) = some (sub_add64 dest source k, v)

  moved-or_else :
      (s t k v : ℕ) (o p : Option (ℕ × ℕ))
      → dest ≤ s
      → t ≡ s - dest + source
      → source < k
      → k < source + count
      → o ≡ moved p
      → or_else o
          (if leb (sub_add64 dest source k) s then some (sub_add64 dest source k, v) else none)
        ≡ moved (or_else p (if leb k t then some (k, v) else none))
  moved-or_else s t k v o p h e b l q = let key = shift_key k (omega arith) l in ground (arith, key)

  -- A lookup in the moved entries is the moved lookup in the source range.
  pub floor-shift :
      (s : ℕ) (m : Relocations)
      → dest ≤ s
      → floor s (shift dest source (inner m)) ≡ moved (floor (s - dest + source) (inner m))
  unfolding below above
  floor-shift s [] h = floor_nil s ∙ ap moved (sym (floor_nil (s - dest + source)))
  floor-shift s ((k, v) ∷ m) h = elim (Bool-cases (ltb source k)) [
    | inl b ↦ elim (Bool-cases (ltb k (source + count))) [
      | inl l ↦
          let t = s - dest + source in
          rw
            (
              b,
              l,
              floor-cons s (sub_add64 dest source k) v (shift dest source (inner m)),
              floor-cons t k v (inner m),
            )
            (moved-or_else s t k v _ _ h refl (ltb→lt _ _ b) (ltb→lt _ _ l) (floor-shift s m h))
      | inr l ↦ rw (b, l) (floor-shift s m h)
    ]
    | inr b ↦ rw b (floor-shift s m h)
  ]
