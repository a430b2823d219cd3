-- ===== src/Disk/Scans.antt =====
-- What a scan of a partition table finds.
use platform_system_vold.Base.{
  ℕ, ◌≤◌, ◌≡◌, refl, ◌∙◌, sym, ap, Bool, true, false, not, ◌&&◌, List, [], ◌∷◌, ◌++◌, Option, none,
  some, arith, if◌then◌else◌, Text, ℤ, pos, all, leb, text_eq, codes,
}
use platform_system_vold.Disk.Partitions.{
  Table, unknown, mbr, gpt, Part, public_volume, private_volume, Parsers, Scan, add_part,
  is_fat_type, scan_disk, mbr_part, scan_mbr, scan_gpt, scan_table, scan_number, scan_part,
  scan_words, gpt_basic_data, gpt_android_expand, scan_lines, no_scan, is_unknown,
}

abbrev pub is_none : List Part → Bool
is_none [] = true
is_none (p ∷ ps) = false

abbrev pub partition_of : Part → ℕ
partition_of (public_volume n) = n
partition_of (private_volume n guid) = n

-- The partition's number is one of those that the device can have.
abbrev pub is_minor : ℕ → Part → Bool
is_minor max part = leb 1 (partition_of part) && leb (partition_of part) max

all-append : (q : Part → Bool) (xs ys : List Part) → all q (xs ++ ys) ≡ (all q xs && all q ys)
all-append q [] ys = refl
all-append q (x ∷ xs) ys = ground (arith, all-append q xs ys)

is_none-append : (xs : List Part) (p : Part) → is_none (xs ++ (p ∷ [])) ≡ false
is_none-append [] p = refl
is_none-append (x ∷ xs) p = refl

-- What the scan keeps: the flag says whether volumes have been asked for, there are none without a
-- table, and all are within the device.
pub record IsScan (max : ℕ) (s : Scan) : Type 0 where
  pub flag : s.found_parts ≡ not (is_none s.parts)
  pub tabled : (is_unknown s.table && s.found_parts) ≡ false
  pub within : all (is_minor max) s.parts ≡ true

-- A bounded `ParseInt` gives numbers within its bounds only.
abbrev pub IsBounded : Parsers → ℕ → Type 0
IsBounded p max =
    (t : Text) (i : ℕ) → p.parse_int_in t (pos 1) (pos max) ≡ some i → (1 ≤ i) × (i ≤ max)

add_part-IsScan :
    (max : ℕ) (part : Part) (s : Scan)
    → is_unknown s.table ≡ false
    → is_minor max part ≡ true
    → IsScan max s
    → IsScan max (add_part part s)
add_part-IsScan max part s table minor inv = record {
  flag = ground (arith, is_none-append s.parts part);
  tabled = ground (arith, table);
  within = all-append (is_minor max) s.parts (part ∷ []) ∙ ground (arith, inv.within);
}

tabled-IsScan :
    (max : ℕ) (t : Table) (s : Scan)
    → is_unknown t ≡ false
    → IsScan max s
    → IsScan max (record s { table = t })
tabled-IsScan max t s known inv = record {
  flag = inv.flag;
  tabled = ground (arith, known);
  within = inv.within;
}

if-IsScan :
    (max : ℕ) (b : Bool) (s t : Scan)
    → IsScan max s
    → IsScan max t
    → IsScan max (if b then s else t)
if-IsScan max true s t h k = h
if-IsScan max false s t h k = k

scan_disk-IsScan :
    (max : ℕ) (words : List Text) (s : Scan) → IsScan max s → IsScan max (scan_disk words s)
unfolding scan_disk
scan_disk-IsScan max [] s inv = inv
scan_disk-IsScan max (name ∷ more) s inv =
    if-IsScan max (text_eq name (codes "mbr")) (record s { table = mbr })
      (if text_eq name (codes "gpt") then record s { table = gpt } else s)
      (tabled-IsScan max mbr s refl inv)
      (if-IsScan max (text_eq name (codes "gpt")) (record s { table = gpt }) s
        (tabled-IsScan max gpt s refl inv) inv)

mbr_part-IsScan :
    (max i : ℕ) (o : Option ℤ) (s : Scan)
    → is_unknown s.table ≡ false
    → is_minor max (public_volume i) ≡ true
    → IsScan max s
    → IsScan max (mbr_part i o s)
mbr_part-IsScan max i none s table minor inv = inv
mbr_part-IsScan max i (some type) s table minor inv =
    if-IsScan max (is_fat_type type) (add_part (public_volume i) s) s
      (add_part-IsScan max (public_volume i) s table minor inv) inv

scan_mbr-IsScan :
    (p : Parsers) (max i : ℕ) (words : List Text) (s : Scan)
    → is_unknown s.table ≡ false
    → is_minor max (public_volume i) ≡ true
    → IsScan max s
    → IsScan max (scan_mbr p i words s)
unfolding scan_mbr
scan_mbr-IsScan p max i [] s table minor inv = inv
scan_mbr-IsScan p max i (type ∷ more) s table minor inv =
    mbr_part-IsScan max i (p.parse_int (codes "0x" ++ type)) s table minor inv

scan_gpt-IsScan :
    (p : Parsers) (max i : ℕ) (words : List Text) (s : Scan)
    → is_unknown s.table ≡ false
    → is_minor max (public_volume i) ≡ true
    → IsScan max s
    → IsScan max (scan_gpt p i words s)
unfolding scan_gpt
scan_gpt-IsScan p max i [] s table minor inv = inv
scan_gpt-IsScan p max i (type ∷ []) s table minor inv = inv
scan_gpt-IsScan p max i (type ∷ guid ∷ more) s table minor inv =
    if-IsScan max (p.equals_ignore_case type gpt_basic_data) (add_part (public_volume i) s)
      (if p.equals_ignore_case type gpt_android_expand
        then add_part (private_volume i guid) s
        else s)
      (add_part-IsScan max (public_volume i) s table minor inv)
      (if-IsScan max (p.equals_ignore_case type gpt_android_expand)
        (add_part (private_volume i guid) s) s
        (add_part-IsScan max (private_volume i guid) s table minor inv) inv)

scan_table-IsScan :
    (p : Parsers) (max i : ℕ) (t : Table) (words : List Text) (s : Scan)
    → t ≡ s.table
    → is_minor max (public_volume i) ≡ true
    → IsScan max s
    → IsScan max (scan_table p t i words s)
scan_table-IsScan p max i mbr words s same minor inv =
    scan_mbr-IsScan p max i words s (sym (ap is_unknown same)) minor inv
scan_table-IsScan p max i gpt words s same minor inv =
    scan_gpt-IsScan p max i words s (sym (ap is_unknown same)) minor inv
scan_table-IsScan p max i unknown words s same minor inv = inv

scan_number-IsScan :
    (p : Parsers) (max : ℕ) (o : Option ℕ) (words : List Text) (s : Scan)
    → ((i : ℕ) → o ≡ some i → (1 ≤ i) × (i ≤ max))
    → IsScan max s
    → IsScan max (scan_number p o words s)
scan_number-IsScan p max none words s bounded inv = inv
scan_number-IsScan p max (some i) words s bounded inv =
    let (low, high) = bounded i refl in
    scan_table-IsScan p max i s.table words s refl (ground (arith, low, high)) inv

scan_part-IsScan :
    (p : Parsers) (max : ℕ) (words : List Text) (s : Scan)
    → IsBounded p max
    → IsScan max s
    → IsScan max (scan_part p (pos max) words s)
unfolding scan_part
scan_part-IsScan p max [] s bounded inv = inv
scan_part-IsScan p max (number ∷ more) s bounded inv =
    scan_number-IsScan p max (p.parse_int_in number (pos 1) (pos max)) more s (bounded number) inv

scan_words-IsScan :
    (p : Parsers) (max : ℕ) (words : List Text) (s : Scan)
    → IsBounded p max
    → IsScan max s
    → IsScan max (scan_words p (pos max) words s)
unfolding scan_words
scan_words-IsScan p max [] s bounded inv = inv
scan_words-IsScan p max (word ∷ more) s bounded inv =
    if-IsScan max (text_eq word (codes "DISK")) (scan_disk more s)
      (if text_eq word (codes "PART") then scan_part p (pos max) more s else s)
      (scan_disk-IsScan max more s inv)
      (if-IsScan max (text_eq word (codes "PART")) (scan_part p (pos max) more s) s
        (scan_part-IsScan p max more s bounded inv) inv)

-- Whatever sgdisk prints, the scan keeps its variables consistent: the flag is set exactly if
-- volumes have been asked for, none are before the kind of the table is known, and each is of a
-- partition from 1 to the largest that the device can have, if numbers are parsed within bounds.
pub scan_lines-IsScan :
    (p : Parsers) (max : ℕ) (lines : List Text) (s : Scan)
    → IsBounded p max
    → IsScan max s
    → IsScan max (scan_lines p (pos max) lines s)
unfolding scan_lines
scan_lines-IsScan p max [] s bounded inv = inv
scan_lines-IsScan p max (line ∷ lines) s bounded inv =
    scan_lines-IsScan p max lines (scan_words p (pos max) (p.split line) s) bounded
      (scan_words-IsScan p max (p.split line) s bounded inv)

pub no_scan-IsScan : (max : ℕ) → IsScan max no_scan
no_scan-IsScan max = record { flag = refl; tabled = refl; within = refl }
