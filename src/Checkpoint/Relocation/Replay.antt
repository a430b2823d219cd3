-- ===== src/Checkpoint/Relocation/Replay.antt =====
-- The relocations of a whole log, against the copies that its replay makes.
use platform_system_vold.Base.{
  ℕ, ◌<◌, ◌≡◌, refl, ap, ◌∙◌, true, List, [], ◌∷◌, Option, none, some, leb, arith,
}
use platform_system_vold.Checkpoint.SectorMap.{IsMap, floor, last?}
use platform_system_vold.Checkpoint.Relocation.{
  Relocations, relocate, relocated, no_relocations, sub_add64, u64_mod,
}
use platform_system_vold.Checkpoint.Relocation.Slice.{IsRange}
use platform_system_vold.Checkpoint.Relocation.Reads.{origin, relocate_copies}

-- A log entry, as far as it says what to copy: `sectors` from `dest` to `source`.
pub record LogCopy : Type 0 where
  pub source : ℕ
  pub dest : ℕ
  pub sectors : ℕ

-- `relocate` for each entry, in the order of the replay. `none` where one of them would step in front
-- of the first entry.
unfoldable pub relocate_all : List LogCopy → Option Relocations → Option Relocations
relocate_all es none = none
relocate_all [] (some m) = some m
relocate_all (e ∷ es) (some m) = relocate_all es (relocate m e.source e.dest e.sectors)

-- The contents of a device: what is in each sector.
abbrev pub Contents : Type 0
Contents = ℕ → ℕ

-- The copy that a replay makes for one entry.
abbrev pub copied : LogCopy → Contents → Contents
copied e d s = d (origin e.source e.dest e.sectors s)

unfoldable pub replayed : List LogCopy → Contents → Contents
replayed [] d = d
replayed (e ∷ es) d = replayed es (copied e d)

abbrev pub AreRanges : List LogCopy → Type 0
AreRanges [] = Unit {0}
AreRanges (e ∷ es) = IsRange e.source e.dest e.sectors × AreRanges es

-- A read of the device `d` through a map.
abbrev pub read_at : Contents → Option ℕ → Option ℕ
read_at d none = none
read_at d (some s) = some (d s)

-- Reads of `d` through the map are reads of `d'`.
abbrev pub Shows : Relocations → Contents → Contents → Type 0
Shows m d d' = (s : ℕ) → (s < u64_mod) → read_at d (relocated m s) ≡ some (d' s)

origin_small :
    (dest source count s : ℕ)
    → IsRange dest source count
    → s < u64_mod
    → origin dest source count s < u64_mod
origin_small dest source count s range h = ground (arith, range.source_fits, range.dest_fits)

no_relocations-Shows : (d : Contents) → Shows no_relocations d d
unfolding no_relocations relocated floor last?
no_relocations-Shows d s h =
    let same : sub_add64 s 0 0 ≡ s = omega arith in
    let first : leb 0 s ≡ true = ground arith in rw first (ap (λ t. some (d t)) same)

no_relocations-IsMap : IsMap no_relocations
unfolding no_relocations
no_relocations-IsMap = (refl, tt)

relocate-Shows :
    (e : LogCopy) (m m' : Relocations) (d d' : Contents)
    → IsRange e.source e.dest e.sectors
    → ((s : ℕ) → relocated m' s ≡ relocated m (origin e.source e.dest e.sectors s))
    → Shows m d d'
    → Shows m' d (copied e d')
relocate-Shows e m m' d d' range reads shows s h =
    ap (read_at d) (reads s)
    ∙ shows (origin e.source e.dest e.sectors s) (origin_small e.source e.dest e.sectors s range h)

relocate_all-Shows :
    (es : List LogCopy) (m : Relocations) (d d' : Contents)
    → AreRanges es
    → IsMap m
    → Shows m d d'
    → (m' : Relocations) × (relocate_all es (some m) ≡ some m') × Shows m' d (replayed es d')
unfolding relocate_all replayed
relocate_all-Shows [] m d d' ranges is_map shows = (m, refl, shows)
relocate_all-Shows (e ∷ es) m d d' ranges is_map shows =
    let (m', found, is_map', reads) = relocate_copies m e.source e.dest e.sectors is_map ranges.0 in
    let (m'', found', shows') =
      relocate_all-Shows es m' d (copied e d') ranges.1 is_map'
        (relocate-Shows e m m' d d' ranges.0 reads shows) in
    (m'', ap (relocate_all es) found ∙ found', shows')

-- The validation of a log sees what the replay will see: for any device and any entries whose
-- ranges fit 64 bits, `relocate` succeeds on each of them in turn, and a read of the untouched
-- device through the map that results gives for every sector what the device holds there once all
-- the copies have been made in the same order.
pub relocations_foresee_replay :
    (es : List LogCopy) (d : Contents) (s : ℕ)
    → AreRanges es
    → s < u64_mod
    → (m : Relocations) × (relocate_all es (some no_relocations) ≡ some m)
      × (read_at d (relocated m s) ≡ some (replayed es d s))
relocations_foresee_replay es d s ranges small =
    let (m, found, shows) =
      relocate_all-Shows es no_relocations d d ranges no_relocations-IsMap
        (no_relocations-Shows d) in
    (m, found, shows s small)
