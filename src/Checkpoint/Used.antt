-- ===== src/Checkpoint/Used.antt =====
-- Checkpoint.cpp: `Used_Sectors`, `checkCollision` and `markUsed`. `none` is a step in front of the
-- first entry of a map, or the use of its end as an entry.
pub mod Collision
pub mod Marked
pub mod Intervals
pub mod Edges
pub mod Refines
use platform_system_vold.Base.{
  ℕ, Bool, true, false, not, ◌||◌, List, [], ◌∷◌, Option, none, some, if◌then◌else◌, ltb,
}
use platform_system_vold.Checkpoint.SectorMap.{
  below, above, first?, last?, floor, insert_or_assign, erase_range,
}

abbrev pub UsedSectors : Type 0
UsedSectors = List (ℕ × Bool)

-- `used_sectors[0] = false` on a new map.
abbrev pub no_sectors : UsedSectors
no_sectors = (0, false) ∷ []

-- `auto first_overlap = --second_overlap` leaves both iterators at the same entry.
unfoldable pub check_collision : UsedSectors → (start end : ℕ) → Option Bool
check_collision used start end = elim (floor start used) [
  | none ↦ none
  | some (k, b) ↦ some (if b then true else if ltb k end then true else false)
]

-- `start_pos` after its step: behind the entry at `start` unless the entry in front is used.
abbrev pub first_erased : ℕ → Option (ℕ × Bool) → Option (ℕ × Bool) → Option ℕ
first_erased start (some (k, true)) next = some start
first_erased start (some (k, false)) none = none
first_erased start (some (k, false)) (some (j, b)) = some j
first_erased start none none = none
first_erased start none (some (j, b)) = some j

-- `end_pos` after its step: over the entry at `end` if the one behind it ends a used range.
abbrev pub end_erased : ℕ → Option (ℕ × Bool) → ℕ
end_erased end (some (k, false)) = k
end_erased end (some (k, true)) = end
end_erased end none = end

unfoldable pub erase_between : UsedSectors → Option ℕ → ℕ → Option UsedSectors
erase_between used none hi = none
erase_between used (some lo) hi = some (if ltb lo hi then erase_range lo hi used else used)

unfoldable pub mark_used : UsedSectors → (start end : ℕ) → Option UsedSectors
mark_used used start end =
    let both = insert_or_assign end false (insert_or_assign start true used) in
    erase_between both (first_erased start (last? (below start both)) (first? (above start both)))
      (end_erased end (first? (above end both)))
