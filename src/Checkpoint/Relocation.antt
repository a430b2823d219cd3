-- ===== src/Checkpoint/Relocation.antt =====
-- Checkpoint.cpp: `Relocations` and `relocate`, and the sector that `relocatedRead` looks up. All
-- numbers are `uint64_t`.
pub mod Slice
pub mod Reads
pub mod Replay
use platform_system_vold.Base.{
  ℕ, ◌+◌, ◌-◌, ◌%◌, ◌^◌, List, [], ◌∷◌, Option, none, some, if◌then◌else◌, ltb,
}
use platform_system_vold.Checkpoint.SectorMap.{
  above, floor, insert_or_assign, insert_all, erase_range,
}

abbrev pub Relocations : Type 0
Relocations = List (ℕ × ℕ)

abbrev pub u64_mod : ℕ
u64_mod = 2 ^ 64

abbrev pub add64 : ℕ → ℕ → ℕ
add64 a b = (a + b) % u64_mod

-- `a - b + c`.
abbrev pub sub_add64 : ℕ → ℕ → ℕ → ℕ
sub_add64 a b c = (a + u64_mod - b + c) % u64_mod

-- `relocations[0] = 0` on a new map.
unfoldable pub no_relocations : Relocations
no_relocations = (0, 0) ∷ []

-- `sector + relocation->second - relocation->first`.
abbrev pub entry_sector : ℕ → Option (ℕ × ℕ) → Option ℕ
entry_sector sector none = none
entry_sector sector (some (k, v)) = some (sub_add64 sector k v)

-- The sector to read for `sector`.
unfoldable pub relocated : Relocations → ℕ → Option ℕ
relocated m sector = entry_sector sector (floor sector m)

-- The loop that adds the rest of the elements to the slice, from the entry behind the first.
unfoldable pub slice_loop : (dest source stop : ℕ) → Relocations → Relocations → Relocations
slice_loop dest source stop slice [] = slice
slice_loop dest source stop slice ((k, v) ∷ m) =
    let rest = slice_loop dest source stop (insert_or_assign (sub_add64 dest source k) v slice) m in
    if ltb k stop then rest else slice

-- `relocate` once the two entries are found, with the ends of the two ranges. `none` where the
-- source would step in front of the first entry.
unfoldable pub relocate_entries :
    Relocations
    → (dest source source_stop stop : ℕ) → (s dest_end : Option (ℕ × ℕ)) → Option Relocations
relocate_entries m dest source source_stop stop (some (k, v)) (some (j, w)) =
    let slice =
      slice_loop dest source source_stop ((dest, sub_add64 source k v) ∷ []) (above source m) in
    let split = insert_or_assign stop (sub_add64 stop j w) m in
    some (insert_all slice (erase_range dest stop split))
relocate_entries m dest source source_stop stop (some (k, v)) none = none
relocate_entries m dest source source_stop stop none dest_end = none

unfoldable pub relocate : Relocations → (dest source count : ℕ) → Option Relocations
relocate m dest source count =
    let stop = add64 dest count in
    relocate_entries m dest source (add64 source count) stop (floor source m) (floor stop m)
