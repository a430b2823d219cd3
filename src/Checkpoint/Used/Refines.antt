-- ===== src/Checkpoint/Used/Refines.antt =====
-- The sectors that `markUsed` leaves used, and the alternation of its marks.
use mathlib.Core.List.{append_assoc}
use platform_system_vold.Base.{
  ℕ, ◌<◌, ◌≤◌, ◌≡◌, refl, ap, ap₂, ◌∙◌, sym, Bool, true, false, ◌&&◌, ◌||◌, [], ◌∷◌, ◌++◌, Option,
  none, some, arith, ltb, leb, if◌then◌else◌,
}
use platform_system_vold.Checkpoint.SectorMap.{below, above, first?, last?, floor, or_else, Ascends}
use platform_system_vold.Checkpoint.SectorMap.Laws.{
  floor-cons, floor_nil, floor-append, floor-below, floor_cut, floor_total,
}
use platform_system_vold.Checkpoint.SectorMap.Parts.{AllBelow-below, AllFrom-above}
use platform_system_vold.Checkpoint.SectorMap.Bounds.{floor-none, Ascends-above, Ascends-lower}
use platform_system_vold.Checkpoint.Used.{UsedSectors, mark_used}
use platform_system_vold.Checkpoint.Used.Marked.{opening, closing, mark_used_result}
use platform_system_vold.Checkpoint.Used.Intervals.{
  mark, is_used, IsMarks, Alternates, Alternates-append, Alternates-below, Alternates-above,
  IsMap-Starts,
}
use platform_system_vold.Checkpoint.Used.Edges.{
  floor_all, next_mark, next_mark_lem, last?-none, IsMap-opening,
}

module _ (used : UsedSectors) (start end : ℕ) (order : start < end) (marks : IsMarks used) where
  abbrev front : UsedSectors
  front = below start used

  abbrev behind : UsedSectors
  behind = above end used

  abbrev marked : UsedSectors
  marked = (front ++ opening start (last? front)) ++ (closing end (first? behind) ++ behind)

  floor-marked :
      (s : ℕ)
      → floor s marked
        ≡ or_else
            (or_else (floor s behind) (floor s (closing end (first? behind))))
            (or_else (floor s (opening start (last? front))) (floor s front))
  floor-marked s =
      floor-append s (front ++ opening start (last? front)) (closing end (first? behind) ++ behind)
      ∙ ap₂ or_else (floor-append s (closing end (first? behind)) behind)
          (floor-append s front (opening start (last? front)))

  floor_single :
      (s k : ℕ) (v : Bool) → floor s ((k, v) ∷ []) ≡ (if leb k s then some (k, v) else none)
  floor_single s k v = rw (floor-cons s k v [], floor_nil {V = Bool} s)

  closing_far : (s : ℕ) (q : Option (ℕ × Bool)) → s < end → floor s (closing end q) ≡ none
  closing_far s (some (k, false)) h = floor_nil s
  closing_far s (some (k, true)) h = floor_single s end false ∙ ground arith
  closing_far s none h = floor_single s end false ∙ ground arith

  opening_far : (s : ℕ) (p : Option (ℕ × Bool)) → s < start → floor s (opening start p) ≡ none
  opening_far s (some (k, true)) h = floor_nil s
  opening_far s (some (k, false)) h = floor_single s start true ∙ ground arith
  opening_far s none h = floor_single s start true ∙ ground arith

  -- From the start on, the front part with its opening says that a sector is used.
  front_open :
      (s : ℕ) (p : Option (ℕ × Bool))
      → start ≤ s
      → last? front ≡ p
      → mark false (or_else (floor s (opening start p)) (floor s front)) ≡ true
  front_open s (some (k, true)) h e =
      rw (
        floor_nil {V = Bool} s,
        floor_all s start front (AllBelow-below start used) (omega arith),
        e,
      )
  front_open s (some (k, false)) h e =
      let t : leb start s ≡ true = ground arith in rw (floor_single s start true, t)
  front_open s none h e =
      let t : leb start s ≡ true = ground arith in rw (floor_single s start true, t)

  -- The mark at the end of the range.
  end_mark : Bool
  end_mark = mark false (floor end used)

  behind-Alternates : Alternates end_mark behind false
  unfolding end_mark
  behind-Alternates =
      let (k, v, e, _) = floor_total end used marks.is_map in
      let h =
        Alternates-above end 0 marks.before false used (IsMap-Starts used marks.is_map)
          marks.alternates in
      rw e (rw e at h)

  end_mark_next : (q : Option (ℕ × Bool)) → first? behind ≡ q → end_mark ≡ next_mark q
  end_mark_next q e = next_mark_lem end_mark behind behind-Alternates ∙ ap next_mark e

  entry_behind :
      (s : ℕ) (a q f : Option (ℕ × Bool))
      → end ≤ s
      → first? behind ≡ q
      → mark false f ≡ true
      → mark false (or_else (or_else a (floor s (closing end q))) f)
        ≡ mark false (or_else a (floor end used))
  unfolding end_mark
  entry_behind s (some e) q f h n m = refl
  entry_behind s none (some (k, false)) f h n m =
      rw (floor_nil {V = Bool} s) (m ∙ sym (end_mark_next (some (k, false)) n))
  entry_behind s none (some (k, true)) f h n m =
      let t : leb end s ≡ true = ground arith in
      rw (floor_single s end false, t) (sym (end_mark_next (some (k, true)) n))
  entry_behind s none none f h n m =
      let t : leb end s ≡ true = ground arith in
      rw (floor_single s end false, t) (sym (end_mark_next none n))

  used_before : (s : ℕ) → s < start → is_used marked s ≡ is_used used s
  unfolding is_used
  used_before s h = rw (
    floor-marked s,
    floor-none s end behind (AllFrom-above end used) (omega arith),
    closing_far s (first? behind) (omega arith),
    opening_far s (last? front) h,
    floor-below s start used h,
  )

  used_inside : (s : ℕ) → start ≤ s → s < end → is_used marked s ≡ true
  unfolding is_used
  used_inside s h l =
      rw
        (
          floor-marked s,
          floor-none s end behind (AllFrom-above end used) l,
          closing_far s (first? behind) l,
        )
        (front_open s (last? front) h refl)

  used_behind : (s : ℕ) → end ≤ s → is_used marked s ≡ is_used used s
  unfolding is_used
  used_behind s h =
      rw (floor-marked s, floor_cut s end used marks.is_map h)
        (entry_behind s (floor s behind) (first? behind) _ h refl
          (front_open s (last? front) (omega arith) refl))

  used_marked : (s : ℕ) → is_used marked s ≡ (is_used used s || (leb start s && ltb s end))
  used_marked s = ground (arith, used_before s, used_inside s, used_behind s)

  closing-Ascends : Ascends start (closing end (first? behind) ++ behind)
  closing-Ascends = go (first? behind)
    where
      tail : Ascends end behind
      tail = Ascends-above end used marks.is_map

      go : (q : Option (ℕ × Bool)) → Ascends start (closing end q ++ behind)
      go (some (k, false)) = Ascends-lower end start behind tail (omega arith)
      go (some (k, true)) = (order, tail)
      go none = (order, tail)

  front-Alternates : Alternates marks.before front (mark marks.before (last? front))
  front-Alternates =
      Alternates-below start 0 marks.before false used (IsMap-Starts used marks.is_map)
        marks.alternates

  marked_front :
      (p : Option (ℕ × Bool))
      → last? front ≡ p
      → (b : Bool) × Alternates b (front ++ opening start p) true
  marked_front (some (k, true)) e =
      (marks.before, Alternates-append _ true true front [] (rw e at front-Alternates) refl)
  marked_front (some (k, false)) e = (
    marks.before,
    Alternates-append _ false true front ((start, true) ∷ []) (rw e at front-Alternates)
        (refl, refl),
  )
  marked_front none e = (false, rw (last?-none front e) (refl, refl))

  closing-Alternates :
      (q : Option (ℕ × Bool)) → first? behind ≡ q → Alternates true (closing end q ++ behind) false
  closing-Alternates (some (k, false)) e =
      rw (end_mark_next (some (k, false)) e) at behind-Alternates
  closing-Alternates (some (k, true)) e =
      (refl, rw (end_mark_next (some (k, true)) e) at behind-Alternates)
  closing-Alternates none e = (refl, rw (end_mark_next none e) at behind-Alternates)

  marked-IsMarks : IsMarks marked
  marked-IsMarks =
      let (b, h) = marked_front (last? front) refl in
      record {
        is_map =
            rw
              (append_assoc front (opening start (last? front))
                (closing end (first? behind) ++ behind))
              (IsMap-opening used start (last? front) _ marks.is_map refl closing-Ascends);
        before = b;
        alternates = Alternates-append b true false _ _ h (closing-Alternates (first? behind) refl);
      }

-- On a map that the program keeps and a range that is not empty, `markUsed` never uses the end of
-- the map as an entry. It leaves a map whose marks alternate again, and the sectors used by it are
-- those that were used and those of the range, no others.
pub mark_used_adds :
    (used : UsedSectors) (start end : ℕ)
    → start < end
    → IsMarks used
    → (used' : UsedSectors) × (mark_used used start end ≡ some used')
      × IsMarks used'
      × ((s : ℕ) → is_used used' s ≡ (is_used used s || (leb start s && ltb s end)))
mark_used_adds used start end order marks = (
  marked used start end order marks,
  mark_used_result used start end order marks.is_map,
  marked-IsMarks used start end order marks,
  used_marked used start end order marks,
)
