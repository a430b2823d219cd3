-- ===== src/Checkpoint/Used/Intervals.antt =====
-- The sectors that a map of used sectors stands for, and what `markUsed` adds to them.
use native.Mathlib.Decide.{dec_lt}
use platform_system_vold.Base.{
  ℕ, suc, ◌≡◌, refl, Bool, true, false, not, [], ◌∷◌, ◌++◌, Option, none, some, arith, lt→ltb, ltb,
  leb,
}
use platform_system_vold.Checkpoint.SectorMap.{below, above, last?, floor, or_else, Ascends, IsMap}
use platform_system_vold.Checkpoint.SectorMap.Laws.{below_none, above_all, floor-cons, floor_nil}
use platform_system_vold.Checkpoint.SectorMap.Bounds.{floor-none, Starts, Ascends-AllFrom}
use platform_system_vold.Checkpoint.Used.{UsedSectors}

-- The mark of an entry, `b` where there is none.
abbrev pub mark : Bool → Option (ℕ × Bool) → Bool
mark b none = b
mark b (some (k, v)) = v

-- A sector is used if the entry at or in front of it says so.
unfoldable pub is_used : UsedSectors → ℕ → Bool
is_used m s = mark false (floor s m)

-- The marks alternate, from behind a `b` to a `z` at the end.
abbrev pub Alternates : Bool → UsedSectors → Bool → Type 0
Alternates b [] z = b ≡ z
Alternates b ((k, v) ∷ m) z = (v ≡ not b) × Alternates v m z

-- The maps that the program keeps: marks alternate and the last is false.
pub record IsMarks (m : UsedSectors) : Type 0 where
  pub is_map : IsMap m
  pub before : Bool
  pub alternates : Alternates before m false

pub Alternates-append :
    (b c z : Bool) (xs ys : UsedSectors)
    → Alternates b xs c
    → Alternates c ys z
    → Alternates b (xs ++ ys) z
Alternates-append b c z [] ys h k = rw h k
Alternates-append b c z ((j, v) ∷ xs) ys h k = (h.0, Alternates-append v c z xs ys h.1 k)

pub Ascends-Starts : (k : ℕ) (m : UsedSectors) → Ascends k m → Starts k m
Ascends-Starts k [] a = tt
Ascends-Starts k ((j, v) ∷ m) a = (omega arith, a.1)

mark-or_else :
    (b v : Bool) (k : ℕ) (o : Option (ℕ × Bool)) → mark b (or_else o (some (k, v))) ≡ mark v o
mark-or_else b v k none = refl
mark-or_else b v k (some e) = refl

-- The part in front of a key alternates down to its last mark.
pub Alternates-below :
    (n lo : ℕ) (b z : Bool) (m : UsedSectors)
    → Starts lo m
    → Alternates b m z
    → Alternates b (below n m) (mark b (last? (below n m)))
unfolding below last?
Alternates-below n lo b z [] a h = refl
Alternates-below n lo b z ((k, v) ∷ m) a h = elim (dec_lt k n) [
  | yes l ↦
      let t : ltb k n ≡ true = lt→ltb k n l in
      let ih = Alternates-below n k v z m (Ascends-Starts k m a.1) h.1 in
      rw t (h.0, rw (mark-or_else b v k (last? (below n m))) ih)
  | no g ↦ let t : ltb k n ≡ false = ground arith in rw (t, below_none n k m a.1 (omega arith)) refl
]

-- The part behind a key alternates from the mark at that key on.
pub Alternates-above :
    (n lo : ℕ) (b z : Bool) (m : UsedSectors)
    → Starts lo m
    → Alternates b m z
    → Alternates (mark b (floor n m)) (above n m) z
unfolding above
Alternates-above n lo b z [] a h = rw (floor_nil {V = Bool} n) h
Alternates-above n lo b z ((k, v) ∷ m) a h = elim (dec_lt n k) [
  | yes l ↦
      let t : ltb n k ≡ true = lt→ltb n k l in
      let u : leb k n ≡ false = ground arith in
      let gone : floor n m ≡ none =
        floor-none n (suc k) m (Ascends-AllFrom k m a.1) (omega arith) in
      rw (t, above_all n k m a.1 (omega arith), floor-cons n k v m, gone, u) h
  | no g ↦
      let t : ltb n k ≡ false = ground arith in
      let u : leb k n ≡ true = ground arith in
      let ih = Alternates-above n k v z m (Ascends-Starts k m a.1) h.1 in
      rw (t, floor-cons n k v m, u, mark-or_else b v k (floor n m)) ih
]

pub IsMap-Starts : (m : UsedSectors) → IsMap m → Starts 0 m
IsMap-Starts [] a = tt
IsMap-Starts ((k, v) ∷ m) a = (omega arith, ground (arith, a.1))
