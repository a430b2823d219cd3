-- ===== src/Checkpoint/Used/Edges.antt =====
-- The ends of a list of marks: its last entry, its first mark, and the entry that opens a range.
use native.Mathlib.Decide.{dec_lt}
use platform_system_vold.Base.{
  ℕ, suc, ◌≤◌, ◌≡◌, refl, ap, ◌∙◌, sym, Bool, true, false, [], ◌∷◌, ◌++◌, Option, none, some, arith,
  leb, inl, inr, Option-cases,
}
use platform_system_vold.Checkpoint.SectorMap.{below, first?, last?, floor, Ascends, IsMap}
use platform_system_vold.Checkpoint.SectorMap.Laws.{floor-cons, floor_nil}
use platform_system_vold.Checkpoint.SectorMap.Parts.{
  AllBelow, AllBelow-below, below_keep, below_empty, AllFrom-zero,
}
use platform_system_vold.Checkpoint.SectorMap.Bounds.{
  Starts, Ascends-append, Ascends-lower, Ascends-below,
}
use platform_system_vold.Checkpoint.Used.{UsedSectors}
use platform_system_vold.Checkpoint.Used.Marked.{opening}
use platform_system_vold.Checkpoint.Used.Intervals.{Alternates, Ascends-Starts}

-- Where all keys are at most `s`, the lookup finds the last entry.
pub floor_all : (s n : ℕ) (m : UsedSectors) → AllBelow n m → n ≤ suc s → floor s m ≡ last? m
unfolding last?
floor_all s n [] a h = floor_nil s
floor_all s n ((k, v) ∷ m) a h =
    let t : leb k s ≡ true = ground arith in rw (floor-cons s k v m, floor_all s n m a.1 h, t)

-- The mark in front of an entry that is next.
abbrev pub next_mark : Option (ℕ × Bool) → Bool
next_mark (some (k, false)) = true
next_mark (some (k, true)) = false
next_mark none = false

pub next_mark_lem : (b : Bool) (m : UsedSectors) → Alternates b m false → b ≡ next_mark (first? m)
unfolding first?
next_mark_lem b [] a = a
next_mark_lem true ((k, true) ∷ m) a = cc a.0
next_mark_lem true ((k, false) ∷ m) a = refl
next_mark_lem false ((k, true) ∷ m) a = refl
next_mark_lem false ((k, false) ∷ m) a = cc a.0

pub last?_nil : last? {V = Bool} [] ≡ none
unfolding last?
last?_nil = refl

pub last?-none : (m : UsedSectors) → last? m ≡ none → m ≡ []
unfolding last?
last?-none [] e = refl
last?-none (x ∷ m) e = elim (Option-cases (last? m)) [
  | inl n ↦ ground (arith, n)
  | inr (y, n) ↦ ground (arith, n)
]

pub opening-Starts :
    (start : ℕ) (p : Option (ℕ × Bool)) (rest : UsedSectors)
    → Ascends start rest
    → Starts start (opening start p ++ rest)
opening-Starts start (some (k, true)) rest a = Ascends-Starts start rest a
opening-Starts start (some (k, false)) rest a = (omega arith, a)
opening-Starts start none rest a = (omega arith, a)

-- The first key stays 0: the entry at 0 is in front of the range or starts it.
pub IsMap-opening :
    (used : UsedSectors) (start : ℕ) (p : Option (ℕ × Bool)) (rest : UsedSectors)
    → IsMap used
    → last? (below start used) ≡ p
    → Ascends start rest
    → IsMap (below start used ++ (opening start p ++ rest))
IsMap-opening [] start p rest m e a = absurd m
IsMap-opening ((k, v) ∷ used) start p rest (z, m) e a = elim (dec_lt k start) [
  | yes h ↦ rw (below_keep start k v used h) (
    z,
    (Ascends-append 0 start (below start used) _ (Ascends-below start 0 used m)
        (AllBelow-below start used) (omega arith) (opening-Starts start p rest a)),
  )
  | no h ↦
      let zero_start : start ≡ 0 = omega arith in
      let none_front : below start ((k, v) ∷ used) ≡ [] =
        ap (λ n. below n ((k, v) ∷ used)) zero_start
        ∙ below_empty 0 0 ((k, v) ∷ used) (AllFrom-zero ((k, v) ∷ used)) (omega arith) in
      let no_entry : p ≡ none = sym e ∙ ap last? none_front ∙ last?_nil in
      rw (none_front, no_entry) (zero_start, Ascends-lower start 0 rest a (omega arith))
]
