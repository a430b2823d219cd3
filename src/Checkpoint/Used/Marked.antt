-- ===== src/Checkpoint/Used/Marked.antt =====
-- The list that `markUsed` leaves: what is in front of the range, at most one entry for its start
-- and one for its end, and what is behind it.
use mathlib.Core.List.{append_assoc, append-nil}
use native.Mathlib.Decide.{dec_lt}
use platform_system_vold.Base.{
  ℕ, suc, ◌<◌, ◌≤◌, ◌≡◌, refl, ap, ap₂, ◌∙◌, sym, Bool, true, false, [], ◌∷◌, ◌++◌, Option, none,
  some, arith, lt→ltb, ltb,
}
use platform_system_vold.Checkpoint.SectorMap.{
  below, from, above, first?, last?, insert_or_assign, erase_range, Ascends, IsMap,
}
use platform_system_vold.Checkpoint.SectorMap.Parts.{
  AllFrom, AllBelow-below, AllFrom-above, AllFrom-above-suc, below_whole, above_empty, below_empty,
  above_whole, from_whole, below_append, from_append, from_empty, from_drop, above-above,
  above_append, below_keep, above_drop, AllFrom-below, AllFrom-append,
}
use platform_system_vold.Checkpoint.SectorMap.Bounds.{
  Ascends-above, Ascends-below, Ascends-append, AllFrom-mono, first?-AllFrom, first?-append,
  first?_ge,
}
use platform_system_vold.Checkpoint.Used.{
  UsedSectors, first_erased, end_erased, erase_between, mark_used,
}

-- The entry at the start, unless the range in front of it is used.
abbrev pub opening : ℕ → Option (ℕ × Bool) → UsedSectors
opening start (some (k, true)) = []
opening start (some (k, false)) = (start, true) ∷ []
opening start none = (start, true) ∷ []

-- The entry at the end, unless the range behind it is used.
abbrev pub closing : ℕ → Option (ℕ × Bool) → UsedSectors
closing end (some (k, false)) = []
closing end (some (k, true)) = (end, false) ∷ []
closing end none = (end, false) ∷ []

module _ (used : UsedSectors) (start end : ℕ) (order : start < end) (is_map : IsMap used) where
  abbrev front : UsedSectors
  front = below start used

  abbrev behind : UsedSectors
  behind = above end used

  abbrev between : UsedSectors
  between = below end (above start used)

  abbrev tail_part : UsedSectors
  tail_part = between ++ ((end, false) ∷ behind)

  abbrev both : UsedSectors
  both = front ++ ((start, true) ∷ tail_part)

  both_entries : insert_or_assign end false (insert_or_assign start true used) ≡ both
  unfolding insert_or_assign
  both_entries =
      ap₂ (λ s t. s ++ ((end, false) ∷ t))
        (below_append end front _
          ∙ ap₂ ◌++◌ (below_whole start end front (AllBelow-below start used) (omega arith))
              (below_keep end start true (above start used) order))
        (above_append end front _
          ∙ ap₂ ◌++◌ (above_empty start end front (AllBelow-below start used) (omega arith)) (
              above_drop end start true (above start used) (omega arith)
              ∙ above-above start end used (omega arith)))
      ∙ append_assoc front ((start, true) ∷ between) ((end, false) ∷ behind)

  tail_from : AllFrom (suc start) tail_part
  tail_from =
      AllFrom-append (suc start) between ((end, false) ∷ behind)
        (AllFrom-below (suc start) end (above start used) (AllFrom-above-suc start used))
        (omega arith, AllFrom-mono end (suc start) behind (AllFrom-above end used) (omega arith))

  back_from : AllFrom start ((start, true) ∷ tail_part)
  back_from = (omega arith, AllFrom-mono (suc start) start tail_part tail_from (omega arith))

  below_start : below start both ≡ front
  below_start =
      below_append start front ((start, true) ∷ tail_part)
      ∙ ap₂ ◌++◌ (below_whole start start front (AllBelow-below start used) (omega arith))
          (below_empty start start ((start, true) ∷ tail_part) back_from (omega arith))
      ∙ append-nil front

  above_start : above start both ≡ tail_part
  above_start =
      above_append start front ((start, true) ∷ tail_part)
      ∙ ap₂ ◌++◌ (above_empty start start front (AllBelow-below start used) (omega arith)) (
          above_drop start start true tail_part (omega arith)
          ∙ above_whole (suc start) start tail_part tail_from (omega arith))

  above_end : above end both ≡ behind
  above_end =
      above_append end front ((start, true) ∷ tail_part)
      ∙ ap₂ ◌++◌ (above_empty start end front (AllBelow-below start used) (omega arith)) (
          above_drop end start true tail_part (omega arith)
          ∙ above_append end between ((end, false) ∷ behind)
          ∙ ap₂ ◌++◌
              (above_empty end end between (AllBelow-below end (above start used)) (omega arith))
              (above_drop end end false behind (omega arith)
                ∙ above_whole (suc end) end behind (AllFrom-above-suc end used) (omega arith)))

  end_from : AllFrom end ((end, false) ∷ behind)
  end_from = (omega arith, AllFrom-above end used)

  from_behind : (k : ℕ) → end ≤ k → from k both ≡ from k ((end, false) ∷ behind)
  from_behind k h =
      from_append k front ((start, true) ∷ tail_part)
      ∙ ap₂ ◌++◌ (from_empty start k front (AllBelow-below start used) (omega arith)) (
          from_drop k start true tail_part (omega arith)
          ∙ from_append k between ((end, false) ∷ behind)
          ∙ ap (λ t. t ++ from k ((end, false) ∷ behind))
              (from_empty end k between (AllBelow-below end (above start used)) h))

  tail-Ascends : Ascends start tail_part
  tail-Ascends =
      Ascends-append start end between ((end, false) ∷ behind)
        (Ascends-below end start (above start used) (Ascends-above start used is_map))
        (AllBelow-below end (above start used)) order (omega arith, Ascends-above end used is_map)

  kept_behind :
      (q : Option (ℕ × Bool))
      → first? behind ≡ q
      → (end ≤ end_erased end q) × (from (end_erased end q) both ≡ closing end q ++ behind)
  kept_behind none e =
      (omega arith, from_behind end (omega arith) ∙ from_whole end end _ end_from (omega arith))
  kept_behind (some (k, true)) e =
      (omega arith, from_behind end (omega arith) ∙ from_whole end end _ end_from (omega arith))
  kept_behind (some (k, false)) e =
      let all = first?-AllFrom end behind k false (Ascends-above end used is_map) e in
      let later = first?_ge (suc end) behind k false (AllFrom-above-suc end used) e in
      (
        omega arith,
        from_behind k (omega arith)
            ∙ from_drop k end false behind (omega arith)
            ∙ from_whole k k behind all (omega arith),
      )

  below_first :
      (n : ℕ) (b : Bool)
      → first? tail_part ≡ some (n, b)
      → below n both ≡ front ++ ((start, true) ∷ [])
  below_first n b e =
      let all = first?-AllFrom start tail_part n b tail-Ascends e in
      let later = first?_ge (suc start) tail_part n b tail_from e in
      below_append n front ((start, true) ∷ tail_part)
      ∙ ap₂ ◌++◌ (below_whole start n front (AllBelow-below start used) (omega arith)) (
          below_keep n start true tail_part (omega arith)
          ∙ ap (λ t. (start, true) ∷ t) (below_empty n n tail_part all (omega arith)))

  kept_front :
      (p : Option (ℕ × Bool)) (n : ℕ) (b : Bool)
      → first? tail_part ≡ some (n, b)
      → (lo : ℕ) × (first_erased start p (some (n, b)) ≡ some lo)
        × (lo ≤ end)
        × (below lo both ≡ front ++ opening start p)
  kept_front (some (k, true)) n b e =
      (start, refl, omega arith, below_start ∙ sym (append-nil front))
  kept_front (some (k, false)) n b e = (
    n,
    refl,
    first?-append n end b false between behind (AllBelow-below end (above start used)) e,
    below_first n b e,
  )
  kept_front none n b e = (
    n,
    refl,
    first?-append n end b false between behind (AllBelow-below end (above start used)) e,
    below_first n b e,
  )

  both_cut : below end both ++ from end both ≡ both
  both_cut =
      ap₂ ◌++◌
        (below_append end front ((start, true) ∷ tail_part)
          ∙ ap₂ ◌++◌ (below_whole start end front (AllBelow-below start used) (omega arith)) (
              below_keep end start true tail_part order
              ∙ ap (λ t. (start, true) ∷ t)
                  (below_append end between ((end, false) ∷ behind)
                    ∙ ap₂ ◌++◌
                        (below_whole end end between (AllBelow-below end (above start used))
                          (omega arith))
                        (below_empty end end ((end, false) ∷ behind) end_from (omega arith))
                    ∙ append-nil between)))
        (from_behind end (omega arith) ∙ from_whole end end _ end_from (omega arith))
      ∙ append_assoc front ((start, true) ∷ between) ((end, false) ∷ behind)

  erase_cut :
      (lo hi : ℕ) (xs ys : UsedSectors)
      → lo ≤ end
      → end ≤ hi
      → below lo both ≡ xs
      → from hi both ≡ ys
      → erase_between both (some lo) hi ≡ some (xs ++ ys)
  unfolding erase_between erase_range
  erase_cut lo hi xs ys l h e f = elim (dec_lt lo hi) [
    | yes lt ↦ let t : ltb lo hi ≡ true = lt→ltb lo hi lt in rw t (ap some (ap₂ ◌++◌ e f))
    | no n ↦
        let t : ltb lo hi ≡ false = ground arith in
        let at_lo : lo ≡ end = omega arith in
        let at_hi : hi ≡ end = omega arith in
        rw t (
          ap some (
            sym both_cut
            ∙ ap₂ ◌++◌ (ap (λ k. below k both) (sym at_lo) ∙ e)
                (ap (λ k. from k both) (sym at_hi) ∙ f)))
  ]

  tail_first :
      (xs : UsedSectors)
      → (n : ℕ) × (b : Bool) × (first? (xs ++ ((end, false) ∷ behind)) ≡ some (n, b))
  unfolding first?
  tail_first [] = (end, false, refl)
  tail_first ((k, v) ∷ xs) = (k, v, refl)

  pub mark_used_result :
      mark_used used start end
      ≡ some ((front ++ opening start (last? front)) ++ (closing end (first? behind) ++ behind))
  unfolding mark_used
  mark_used_result =
      let (n, b, e) = tail_first between in
      let (lo, first, low, below_lo) = kept_front (last? front) n b e in
      let (high, from_hi) = kept_behind (first? behind) refl in
      rw (both_entries, below_start, above_start, above_end)
        (rw (e, first)
          (erase_cut lo (end_erased end (first? behind)) _ _ low high below_lo from_hi))
