-- ===== src/Disk/Fallback.antt =====
-- What `readPartitions` makes of a scan.
use platform_system_vold.Base.{
  ℕ, ◌≡◌, ap, Bool, false, not, ◌&&◌, List, [], ◌∷◌, arith, if◌then◌else◌, Text, pos,
}
use platform_system_vold.Disk.Majors.{value}
use platform_system_vold.Disk.Partitions.{
  Table, Part, public_volume, Parsers, scan_lines, no_scan, is_unknown, with_fallback,
  read_partitions,
}
use platform_system_vold.Disk.Scans.{is_none, IsBounded, no_scan-IsScan, scan_lines-IsScan}

with_fallback_lem :
    (identified f : Bool) (t : Table) (ps : List Part)
    → f ≡ not (is_none ps)
    → (is_unknown t && f) ≡ false
    → with_fallback identified (record { table = t; found_parts = f; parts = ps })
      ≡ (if is_none ps then if identified then public_volume 0 ∷ [] else [] else ps)
unfolding with_fallback
with_fallback_lem identified f t [] h k = ground arith
with_fallback_lem identified f t (p ∷ ps) h k = ground arith

-- The volumes that `readPartitions` asks for, from the lines of sgdisk, are those of the partitions
-- that the scan found, or, only if it found none, that of the whole device if its file system is
-- known; if numbers are parsed within bounds.
pub read_partitions_fallback :
    (p : Parsers) (max : ℕ) (identified : Bool) (lines : List Text)
    → IsBounded p max
    → read_partitions p (value (pos max)) identified (value lines)
      ≡ value (
          if is_none (scan_lines p (pos max) lines no_scan).parts
          then if identified then public_volume 0 ∷ [] else []
          else (scan_lines p (pos max) lines no_scan).parts)
unfolding read_partitions
read_partitions_fallback p max identified lines bounded =
    let inv = scan_lines-IsScan p max lines no_scan bounded (no_scan-IsScan max) in
    let s = scan_lines p (pos max) lines no_scan in
    ap value (with_fallback_lem identified s.found_parts s.table s.parts inv.flag inv.tabled)
