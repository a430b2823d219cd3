-- ===== src/Disk/Agreement.antt =====
-- Which devices `readMetadata` and `getMaxMinors` know.
use platform_system_vold.Base.{
  ◌≡◌, refl, ◌∙◌, ◌++◌, codes, Bool, true, false, Option, none, some, arith, Text, ℤ,
}
use platform_system_vold.Disk.Majors.{
  Device, not_supported, OrError, value, error, trimmed, as_is, labelled, manufactured, label_of,
  metadata_with, size_of, read_metadata, or_thrown, minors_in, or_else, get_max_minors, stoi,
}

abbrev pub is_unsupported : {A : Type 0} → OrError A → Bool
is_unsupported (error not_supported) = true
is_unsupported _ = false

trimmed_supported : (d : Device) (o : Option Text) → is_unsupported (trimmed d o) ≡ false
trimmed_supported d none = refl
trimmed_supported d (some s) = refl

as_is_supported : (o : Option Text) → is_unsupported (as_is o) ≡ false
as_is_supported none = refl
as_is_supported (some s) = refl

labelled_supported : (o : Option ℤ) → is_unsupported (labelled o) ≡ false
labelled_supported none = refl
labelled_supported (some n) = refl

manufactured_supported : (d : Device) (o : Option Text) → is_unsupported (manufactured d o) ≡ false
manufactured_supported d none = refl
manufactured_supported d (some s) = labelled_supported (d.parse_int (d.trim s))

or_thrown_supported : (o : Option ℤ) → is_unsupported (or_thrown o) ≡ false
or_thrown_supported none = refl
or_thrown_supported (some n) = refl

minors_in_supported : (o : Option Text) → is_unsupported (minors_in o) ≡ false
minors_in_supported none = refl
minors_in_supported (some s) = or_thrown_supported (stoi s)

metadata_with_unsupported :
    (d : Device) (r : OrError Text)
    → is_unsupported (metadata_with (size_of d.block_dev_size) r).0 ≡ is_unsupported r
metadata_with_unsupported d (value s) = refl
metadata_with_unsupported d (error e) = refl

label_of_supported : (d : Device) → is_unsupported (label_of d) ≡ is_unsupported (get_max_minors d)
unfolding label_of get_max_minors
label_of_supported d = ground (
  arith,
  trimmed_supported d (d.read_file (d.sys_path ++ codes "/device/vendor")),
  manufactured_supported d (d.read_file (d.sys_path ++ codes "/device/manfid")),
  as_is_supported (d.read_file (d.sys_path ++ codes "/device/model")),
  minors_in_supported (d.read_file (codes "/sys/module/loop/parameters/max_part")),
  minors_in_supported (
      or_else (d.read_file (codes "/sys/module/mmc_block/parameters/perdev_minors"))
        (d.read_file (codes "/sys/module/mmcblk/parameters/perdev_minors"))),
)

-- `readMetadata` refuses a disk as not supported exactly if `getMaxMinors` does, whatever sysfs holds
-- and whichever of its files can be read.
pub read_metadata-get_max_minors :
    (d : Device) → is_unsupported (read_metadata d).0 ≡ is_unsupported (get_max_minors d)
unfolding read_metadata
read_metadata-get_max_minors d = metadata_with_unsupported d (label_of d) ∙ label_of_supported d
