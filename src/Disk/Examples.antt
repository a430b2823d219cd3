-- ===== src/Disk/Examples.antt =====
-- Scans of two partition tables, and the theorems at these inputs.
use platform_system_vold.Base.{
  ℕ, ◌≤◌, ◌≡◌, refl, true, false, ◌&&◌, List, [], ◌∷◌, Option, none, some, arith, if◌then◌else◌,
  leb, Text, codes, text_eq, ℤ, pos, negsuc, read_ℤ, is_digit,
}
use platform_system_vold.Disk.Majors.{Device, value, read_metadata, get_max_minors}
use platform_system_vold.Disk.Partitions.{
  public_volume, Parsers, no_scan, is_fat_type, scan_disk, scan_mbr, scan_part, scan_words,
  scan_lines, with_fallback, read_partitions,
}
use platform_system_vold.Disk.Agreement.{is_unsupported, read_metadata-get_max_minors}
use platform_system_vold.Volume.{new_volume}
use platform_system_vold.Volume.Types.{Volume, node, Volumes, nil, cons, emulated, fields}
use platform_system_vold.Volume.Setters.{find_volume, find_in}
use platform_system_vold.Disk.Volumes.{is_some, find_disk_volume}
use platform_system_vold.Disk.Fallback.{read_partitions_fallback}
use platform_system_vold.Disk.Scans.{is_none, IsBounded, IsScan, no_scan-IsScan, scan_lines-IsScan}

-- The words of a text, at blanks.
abbrev add_letter : ℕ → List Text → List Text
add_letter c [] = (c ∷ []) ∷ []
add_letter c (w ∷ ws) = (c ∷ w) ∷ ws

abbrev words : Text → List Text
words [] = [] ∷ []
words (c ∷ s) = let rest = words s in if leb c b' ' then [] ∷ rest else add_letter c rest

abbrev bounded_by : ℕ → ℕ → Option ℕ
bounded_by n i = if leb 1 i && leb i n then some i else none

abbrev natural : ℤ → Option ℤ → Option ℕ
natural (pos n) (some (pos i)) = bounded_by n i
natural (pos n) (some (negsuc i)) = none
natural (pos n) none = none
natural (negsuc n) o = none

-- Parsers that know one digit and its hexadecimal form.
abbrev parsers : Parsers
parsers = record {
  split = words;
  parse_int_in = λ t low high. natural high (read_ℤ t);
  parse_int = λ t. if text_eq t (codes "0x0c") then some (pos 12) else none;
  equals_ignore_case = text_eq;
}

natural-bounded : (max i : ℕ) (o : Option ℤ) → natural (pos max) o ≡ some i → (1 ≤ i) × (i ≤ max)
natural-bounded max i none h = cc
natural-bounded max i (some (pos j)) h = ground arith
natural-bounded max i (some (negsuc j)) h = cc

parsers-IsBounded : IsBounded parsers 15
parsers-IsBounded t i h = natural-bounded 15 i (read_ℤ t) h

abbrev mbr_lines : List Text
mbr_lines = codes "DISK mbr" ∷ codes "PART 1 0c" ∷ codes "PART 2 83" ∷ []

scans :
    read_partitions parsers (value (pos 15)) true (value mbr_lines) ≡ value (public_volume 1 ∷ [])
unfolding read_partitions scan_lines scan_words scan_disk scan_part scan_mbr is_fat_type
    with_fallback read_ℤ is_digit
scans = refl

abbrev card : Device
card = record {
  major = 179;
  sys_path = codes "/sys/devices/mmc0";
  is_virtio = false;
  read_file = λ path. none;
  trim = λ t. t;
  parse_int = read_ℤ;
  block_dev_size = none;
}

scan_lines-IsScan_example : IsScan 15 (scan_lines parsers (pos 15) mbr_lines no_scan)
scan_lines-IsScan_example =
    scan_lines-IsScan parsers 15 mbr_lines no_scan parsers-IsBounded (no_scan-IsScan 15)

read_partitions_fallback_example :
    read_partitions parsers (value (pos 15)) true (value mbr_lines)
    ≡ value (
        if is_none (scan_lines parsers (pos 15) mbr_lines no_scan).parts
        then if true then public_volume 0 ∷ [] else []
        else (scan_lines parsers (pos 15) mbr_lines no_scan).parts)
read_partitions_fallback_example =
    read_partitions_fallback parsers 15 true mbr_lines parsers-IsBounded

read_metadata-get_max_minors_example :
    is_unsupported (read_metadata card).0 ≡ is_unsupported (get_max_minors card)
read_metadata-get_max_minors_example = read_metadata-get_max_minors card

abbrev named : Text → Volumes → Volume
named id vs = node (record (fields (new_volume emulated)) { id = id }) vs

abbrev card_volumes : List Volume
card_volumes =
    named (codes "public:179,1") nil
    ∷ named (codes "private:179,2") (cons (named (codes "emulated:179,2") nil) nil)
    ∷ []

stacked_found : is_some (find_disk_volume (codes "emulated:179,2") card_volumes) ≡ true
unfolding find_disk_volume find_volume find_in new_volume
stacked_found = refl
