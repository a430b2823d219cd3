-- ===== src/Checkpoint/Examples.antt =====
-- Runs of the functions of the checkpoint log, and the theorems about them at these inputs.
use platform_system_vold.Base.{
  List, ℕ, ◌≡◌, refl, true, false, ◌&&◌, ◌||◌, ltb, leb, [], ◌∷◌, some, arith, codes,
}
use platform_system_vold.Checkpoint.SectorMap.{
  IsMap, floor, above, below, last?, first?, insert_or_assign, insert_all, erase_range, from,
  has_key,
}
use platform_system_vold.Checkpoint.Relocation.{
  no_relocations, Relocations, relocate, relocate_entries, relocated, slice_loop,
}
use platform_system_vold.Checkpoint.Relocation.Slice.{IsRange}
use platform_system_vold.Checkpoint.Relocation.Reads.{origin, relocate_copies}
use platform_system_vold.Checkpoint.Relocation.Replay.{
  LogCopy, relocate_all, replayed, AreRanges, read_at, relocations_foresee_replay,
}
use platform_system_vold.Checkpoint.Used.{UsedSectors, check_collision, erase_between, mark_used}
use platform_system_vold.Checkpoint.Used.Intervals.{IsMarks, is_used}
use platform_system_vold.Checkpoint.Used.Collision.{check_collision_always}
use platform_system_vold.Checkpoint.Used.Refines.{mark_used_adds}
use platform_system_vold.Checkpoint.Crc.{crc32, crc_byte, table}
use platform_system_vold.Checkpoint.Crc.Bitwise.{bitwise_crc32, crc32-bitwise}

-- Sectors 8 to 15 already read from 100 on.
abbrev moved_once : Relocations
moved_once = (0, 0) ∷ (8, 100) ∷ (16, 16) ∷ []

relocates :
    relocate moved_once 40 12 8
    ≡ some ((0, 0) ∷ (8, 100) ∷ (16, 16) ∷ (40, 104) ∷ (44, 16) ∷ (48, 48) ∷ [])
unfolding relocate relocate_entries slice_loop floor above last? insert_or_assign insert_all
    erase_range from below has_key
relocates = refl

moved_once-IsMap : IsMap moved_once
moved_once-IsMap = (refl, (omega arith, (omega arith, tt)))

small-IsRange : IsRange 40 12 8
small-IsRange = record {
  dest_fits = omega arith;
  source_fits = omega arith;
  some_sectors = omega arith;
}

relocate_copies_example :
    (m' : Relocations) × (relocate moved_once 40 12 8 ≡ some m')
    × IsMap m'
    × ((s : ℕ) → relocated m' s ≡ relocated moved_once (origin 40 12 8 s))
relocate_copies_example = relocate_copies moved_once 40 12 8 moved_once-IsMap small-IsRange

-- Sectors 4 to 7 and 20 to 23 are used.
abbrev two_ranges : UsedSectors
two_ranges = (0, false) ∷ (4, true) ∷ (8, false) ∷ (20, true) ∷ (24, false) ∷ []

two_ranges-IsMap : IsMap two_ranges
two_ranges-IsMap = (refl, (omega arith, (omega arith, (omega arith, (omega arith, tt)))))

two_ranges-IsMarks : IsMarks two_ranges
two_ranges-IsMarks = record {
  is_map = two_ranges-IsMap;
  before = true;
  alternates = (refl, (refl, (refl, (refl, (refl, refl)))));
}

joins : mark_used two_ranges 6 20 ≡ some ((0, false) ∷ (4, true) ∷ (24, false) ∷ [])
unfolding mark_used erase_between above below last? first? insert_or_assign erase_range from
joins = refl

mark_used_adds_example :
    (used' : UsedSectors) × (mark_used two_ranges 6 20 ≡ some used')
    × IsMarks used'
    × ((s : ℕ) → is_used used' s ≡ (is_used two_ranges s || (leb 6 s && ltb s 20)))
mark_used_adds_example = mark_used_adds two_ranges 6 20 (omega arith) two_ranges-IsMarks

-- No sector of 8 to 11 is used.
check_collision_always_example : check_collision two_ranges 8 12 ≡ some true
check_collision_always_example =
    check_collision_always two_ranges 8 12 two_ranges-IsMap (omega arith)

-- The known check value of the algorithm, with its start and end values complemented.
check_value : crc32 (codes "123456789") 0xffffffff ≡ 0x340bc6d9
unfolding crc32 crc_byte table
check_value = refl

crc32-bitwise_example :
    crc32 (codes "123456789") 0xffffffff ≡ bitwise_crc32 (codes "123456789") 0xffffffff
crc32-bitwise_example = crc32-bitwise (codes "123456789") 0xffffffff

-- Two entries of a log: the second reads a sector that the first has overwritten.
abbrev two_copies : List LogCopy
two_copies =
    record { source = 8; dest = 100; sectors = 8 }
    ∷ record { source = 40; dest = 12; sectors = 4 }
    ∷ []

two_copies-AreRanges : AreRanges two_copies
two_copies-AreRanges = (
  record { some_sectors = omega arith; dest_fits = omega arith; source_fits = omega arith },
  (record { some_sectors = omega arith; dest_fits = omega arith; source_fits = omega arith }, tt),
)

relocations_foresee_replay_example :
    (m : Relocations) × (relocate_all two_copies (some no_relocations) ≡ some m)
    × (read_at (λ s. s) (relocated m 41) ≡ some (replayed two_copies (λ s. s) 41))
relocations_foresee_replay_example =
    relocations_foresee_replay two_copies (λ s. s) 41 two_copies-AreRanges (omega arith)

second_reads_first : replayed two_copies (λ s. s) 41 ≡ 105
unfolding replayed
second_reads_first = refl
