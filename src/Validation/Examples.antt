-- ===== src/Validation/Examples.antt =====
-- Arguments that pass and that do not, and the theorems about the checks at such arguments.
use platform_system_vold.Base.{
  ◌≡◌, refl, ◌↔◌, ◌%◌, Text, codes, count_if, is_xdigit, is_alnum, arith,
}
use platform_system_vold.Hex.{ok as hex_ok, hex_to_str}
use platform_system_vold.Validation.{
  ok, exception, ex_illegal_argument, path_shady, check_argument_path, check_argument_id,
  check_argument_hex, check_incremental_path, mount_target, under_mt, in_mount,
}
use platform_system_vold.Validation.Paths.{IsPlainPath, check_argument_path_iff}
use platform_system_vold.Validation.Incremental.{IsPlaceFor, check_incremental_path_iff}
use platform_system_vold.Validation.Callers.{check_argument_hex-hex_to_str}

abbrev climbing : Text
climbing = codes "/data/../x"

abbrev mount_point : Text
mount_point = codes "/data/incremental/MT_a/mount"

climbing_refused :
    check_argument_path climbing ≡ exception ex_illegal_argument (path_shady climbing)
unfolding check_argument_path
climbing_refused = refl

target_passes : check_incremental_path mount_target mount_point ≡ ok
unfolding check_incremental_path check_argument_path under_mt in_mount
target_passes = refl

id_passes : check_argument_id (codes "disk:8,0") ≡ ok
unfolding check_argument_id is_alnum
id_passes = refl

hex_passes : check_argument_hex (codes "0a-1") ≡ ok
unfolding check_argument_hex is_xdigit
hex_passes = refl

check_argument_path_iff_example : (check_argument_path climbing ≡ ok) ↔ IsPlainPath climbing
check_argument_path_iff_example = check_argument_path_iff climbing

check_incremental_path_iff_example :
    (check_incremental_path mount_target mount_point ≡ ok)
    ↔ (IsPlainPath mount_point × IsPlaceFor mount_target mount_point)
check_incremental_path_iff_example = check_incremental_path_iff mount_target mount_point

check_argument_hex-hex_to_str_example :
    ((hex_to_str (codes "0a-1")).0 ≡ hex_ok) ↔ (count_if is_xdigit (codes "0a-1") % 2 ≡ 0)
check_argument_hex-hex_to_str_example =
    check_argument_hex-hex_to_str (codes "0a-1") (omega arith) hex_passes
