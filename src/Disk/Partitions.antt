-- ===== src/Disk/Partitions.antt =====
-- model/Disk.cpp: `Disk::readPartitions`: the scan of what sgdisk prints. The creation of
-- a volume is a value, `Part`; that of a private one may come to nothing for want of a key. The functions of libbase are parameters.
use platform_system_vold.Base.{
  ℕ, Bool, true, false, not, ◌||◌, List, [], ◌∷◌, ◌++◌, Option, none, some, if◌then◌else◌, ◌==◌,
  any, Text, codes, text_eq, ℤ, pos, negsuc,
}
use platform_system_vold.Disk.Majors.{not_supported, thrown, OrError, value, error}

pub data Table : Type 0 where
  unknown mbr gpt : Table

-- `createPublicVolume` or `createPrivateVolume`, with the number of the partition; 0 is the whole
-- device.
pub data Part : Type 0 where
  public_volume : (partition : ℕ) → Part
  private_volume : (partition : ℕ) → (part_guid : Text) → Part

-- `Split` at blanks, `ParseInt` with bounds and without, and `EqualsIgnoreCase`.
pub record Parsers : Type 0 where
  pub split : Text → List Text
  pub parse_int_in : Text → (low high : ℤ) → Option ℕ
  pub parse_int : Text → Option ℤ
  pub equals_ignore_case : Text → Text → Bool

-- The variables of the scan.
pub record Scan : Type 0 where
  pub table : Table
  pub found_parts : Bool
  pub parts : List Part

abbrev pub add_part : Part → Scan → Scan
add_part part s = record s { found_parts = true; parts = s.parts ++ (part ∷ []) }

abbrev pub gpt_basic_data : Text
gpt_basic_data = codes "EBD0A0A2-B9E5-4433-87C0-68B6B72699C7"

abbrev pub gpt_android_expand : Text
gpt_android_expand = codes "193D1EA4-B3CA-11E4-B075-10604B889DCF"

-- The types of the switch: FAT16, HPFS/NTFS/exFAT, FAT32 and FAT16 by LBA.
unfoldable pub is_fat_type : ℤ → Bool
is_fat_type (negsuc n) = false
is_fat_type (pos n) = any (λ t. n == t) (0x06 ∷ 0x07 ∷ 0x0b ∷ 0x0c ∷ 0x0e ∷ [])

unfoldable pub scan_disk : List Text → Scan → Scan
scan_disk [] s = s
scan_disk (name ∷ more) s =
    if text_eq name (codes "mbr")
    then record s { table = mbr }
    else if text_eq name (codes "gpt")
    then record s { table = gpt }
    else s

abbrev pub mbr_part : ℕ → Option ℤ → Scan → Scan
mbr_part i none s = s
mbr_part i (some type) s = if is_fat_type type then add_part (public_volume i) s else s

unfoldable pub scan_mbr : Parsers → (partition : ℕ) → List Text → Scan → Scan
scan_mbr p i [] s = s
scan_mbr p i (type ∷ more) s = mbr_part i (p.parse_int (codes "0x" ++ type)) s

unfoldable pub scan_gpt : Parsers → (partition : ℕ) → List Text → Scan → Scan
scan_gpt p i [] s = s
scan_gpt p i (type_guid ∷ []) s = s
scan_gpt p i (type_guid ∷ part_guid ∷ more) s =
    if p.equals_ignore_case type_guid gpt_basic_data
    then add_part (public_volume i) s
    else if p.equals_ignore_case type_guid gpt_android_expand
    then add_part (private_volume i part_guid) s
    else s

abbrev pub scan_table : Parsers → Table → ℕ → List Text → Scan → Scan
scan_table p mbr i more s = scan_mbr p i more s
scan_table p gpt i more s = scan_gpt p i more s
scan_table p unknown i more s = s

abbrev pub scan_number : Parsers → Option ℕ → List Text → Scan → Scan
scan_number p none more s = s
scan_number p (some i) more s = scan_table p s.table i more s

unfoldable pub scan_part : Parsers → (max_minors : ℤ) → List Text → Scan → Scan
scan_part p max_minors [] s = s
scan_part p max_minors (number ∷ more) s =
    scan_number p (p.parse_int_in number (pos 1) max_minors) more s

unfoldable pub scan_words : Parsers → (max_minors : ℤ) → List Text → Scan → Scan
scan_words p max_minors [] s = s
scan_words p max_minors (word ∷ more) s =
    if text_eq word (codes "DISK")
    then scan_disk more s
    else if text_eq word (codes "PART")
    then scan_part p max_minors more s
    else s

unfoldable pub scan_lines : Parsers → (max_minors : ℤ) → List Text → Scan → Scan
scan_lines p max_minors [] s = s
scan_lines p max_minors (line ∷ lines) s =
    scan_lines p max_minors lines (scan_words p max_minors (p.split line) s)

abbrev pub no_scan : Scan
no_scan = record { table = unknown; found_parts = false; parts = [] }

abbrev pub is_unknown : Table → Bool
is_unknown unknown = true
is_unknown _ = false

-- The last effort: the whole device, if its file system is known.
unfoldable pub with_fallback : (identified : Bool) → Scan → List Part
with_fallback identified s =
    if is_unknown s.table || not s.found_parts
    then s.parts ++ (if identified then public_volume 0 ∷ [] else [])
    else s.parts

abbrev pub is_negative : ℤ → Bool
is_negative (pos n) = false
is_negative (negsuc n) = true

-- What `sgdisk` returned: its lines, or a failure.
abbrev pub scanned : Parsers → ℤ → (identified : Bool) → OrError (List Text) → OrError (List Part)
scanned p max_minors identified (error e) = error e
scanned p max_minors identified (value lines) =
    value (with_fallback identified (scan_lines p max_minors lines no_scan))

-- The volumes that `readPartitions` asks for; on an error of `getMaxMinors` it returns `-ENOTSUP`, but
-- an exception passes through it.
unfoldable pub read_partitions :
    Parsers → OrError ℤ → (identified : Bool) → OrError (List Text) → OrError (List Part)
read_partitions p (error thrown) identified output = error thrown
read_partitions p (error _) identified output = error not_supported
read_partitions p (value max_minors) identified output =
    if is_negative max_minors then error not_supported else scanned p max_minors identified output
