-- ===== src/Disk/Majors.antt =====
-- model/Disk.cpp: `Disk::readMetadata` and `Disk::getMaxMinors`, which both go by the major device
-- number. The files of sysfs, the two functions of libbase and `IsVirtioBlkDevice` are parameters.
use platform_system_vold.Base.{
  ℕ, zero, suc, ◌+◌, ◌-◌, ◌*◌, ◌^◌, Bool, true, false, ◌&&◌, ◌||◌, List, [], ◌∷◌, ◌++◌, Option,
  none, some, if◌then◌else◌, leb, ◌==◌, any, Text, codes, contains, is_digit, ℤ, pos, negsuc,
}

-- What the functions see of a disk.
pub record Device : Type 0 where
  pub major : ℕ
  pub sys_path : Text
  pub is_virtio : Bool
  pub read_file : (path : Text) → Option Text
  pub trim : Text → Text
  pub parse_int : Text → Option ℤ
  pub block_dev_size : Option ℕ

-- An error that a function of `Disk` returns; `last_errno` is what `errno` held. `thrown` is an
-- exception of `std::stoi`.
pub data DiskError : Type 0 where
  last_errno einval not_supported thrown : DiskError

pub data OrError (A : Type 0) : Type 0 where
  value : A → OrError A
  error : DiskError → OrError A

abbrev pub major_loop : ℕ
major_loop = 7

abbrev pub major_scsi : List ℕ
major_scsi =
    8 ∷ 65 ∷ 66 ∷ 67 ∷ 68 ∷ 69 ∷ 70 ∷ 71 ∷ 128 ∷ 129 ∷ 130 ∷ 131 ∷ 132 ∷ 133 ∷ 134 ∷ 135 ∷ []

abbrev pub major_mmc : ℕ
major_mmc = 179

unfoldable pub is_scsi : ℕ → Bool
is_scsi m = any (λ s. m == s) major_scsi

unfoldable pub is_nvme_blk_device : (major : ℕ) → (sys_path : Text) → Bool
is_nvme_blk_device major sys_path =
    contains sys_path (codes "nvme") && (leb 234 major && leb major 512)

-- The label of a card by the number of its manufacturer; others leave it as it was, empty.
unfoldable pub card_label : ℤ → Text
card_label (negsuc n) = []
card_label (pos n) =
    if n == 0x03
    then codes "SanDisk"
    else if n == 0x1b
    then codes "Samsung"
    else if n == 0x28
    then codes "Lexar"
    else if n == 0x74
    then codes "Transcend"
    else []

abbrev pub trimmed : Device → Option Text → OrError Text
trimmed d none = error last_errno
trimmed d (some s) = value (d.trim s)

abbrev pub as_is : Option Text → OrError Text
as_is none = error last_errno
as_is (some s) = value s

abbrev pub labelled : Option ℤ → OrError Text
labelled none = error einval
labelled (some id) = value (card_label id)

abbrev pub manufactured : Device → Option Text → OrError Text
manufactured d none = error last_errno
manufactured d (some s) = labelled (d.parse_int (d.trim s))

-- The switch of `readMetadata`: the label.
unfoldable pub label_of : Device → OrError Text
label_of d =
    if d.major == major_loop
    then value (codes "Virtual")
    else if is_scsi d.major
    then trimmed d (d.read_file (d.sys_path ++ codes "/device/vendor"))
    else if d.major == major_mmc
    then manufactured d (d.read_file (d.sys_path ++ codes "/device/manfid"))
    else if d.is_virtio
    then value (codes "Virtual")
    else if is_nvme_blk_device d.major d.sys_path
    then as_is (d.read_file (d.sys_path ++ codes "/device/model"))
    else error not_supported

-- `mSize` and `mLabel` after `readMetadata`, and whether the listener hears of them.
pub record Metadata : Type 0 where
  pub size : ℕ
  pub label : Text
  pub announced : Bool

abbrev pub size_of : Option ℕ → ℕ
size_of none = 2 ^ 64 - 1
size_of (some n) = n

abbrev pub metadata_with : ℕ → OrError Text → OrError Text × Metadata
metadata_with size (value label) =
    (value label, record { size = size; label = label; announced = true })
metadata_with size (error e) = (error e, record { size = size; label = []; announced = false })

unfoldable pub read_metadata : Device → OrError Text × Metadata
read_metadata d = metadata_with (size_of d.block_dev_size) (label_of d)

-- The digits at the front of a text, as a number, and whether there are any.
abbrev pub digits_front : (acc : ℕ) → (some_read : Bool) → Text → Option ℕ
digits_front acc b [] = if b then some acc else none
digits_front acc b (c ∷ s) =
    let rest = digits_front (acc * 10 + (c - b'0')) true s in
    if is_digit c then rest else if b then some acc else none

abbrev pub skip_spaces : Text → Text
skip_spaces [] = []
skip_spaces (c ∷ s) =
    let rest = skip_spaces s in if c == b' ' || (leb 9 c && leb c 13) then rest else c ∷ s

abbrev pub in_int : Bool → Option ℕ → Option ℤ
in_int minus none = none
in_int true (some zero) = some (pos 0)
in_int true (some (suc n)) = if leb (suc n) (2 ^ 31) then some (negsuc n) else none
in_int false (some n) = if leb n (2 ^ 31 - 1) then some (pos n) else none

abbrev pub signed : Text → Option ℤ
signed [] = none
signed (c ∷ s) =
    if c == b'-'
    then in_int true (digits_front 0 false s)
    else if c == b'+'
    then in_int false (digits_front 0 false s)
    else in_int false (digits_front 0 false (c ∷ s))

-- `std::stoi`; `none` is an exception.
unfoldable pub stoi : Text → Option ℤ
stoi s = signed (skip_spaces s)

abbrev pub or_thrown : Option ℤ → OrError ℤ
or_thrown none = error thrown
or_thrown (some n) = value n

abbrev pub minors_in : Option Text → OrError ℤ
minors_in none = error last_errno
minors_in (some s) = or_thrown (stoi s)

abbrev pub or_else : Option Text → Option Text → Option Text
or_else (some s) o = some s
or_else none o = o

unfoldable pub get_max_minors : Device → OrError ℤ
get_max_minors d =
    if d.major == major_loop
    then minors_in (d.read_file (codes "/sys/module/loop/parameters/max_part"))
    else if is_scsi d.major
    then value (pos 15)
    else if d.major == major_mmc
    then minors_in (
        or_else (d.read_file (codes "/sys/module/mmc_block/parameters/perdev_minors"))
          (d.read_file (codes "/sys/module/mmcblk/parameters/perdev_minors")))
    else if d.is_virtio
    then value (pos 15)
    else if is_nvme_blk_device d.major d.sys_path
    then value (pos 127)
    else error not_supported
