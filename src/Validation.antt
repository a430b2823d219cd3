-- ===== src/Validation.antt =====
-- VoldNativeServiceValidation.cpp and .h: the checks of the arguments of the binder service. A
-- `binder::Status` is `ok` or an exception with a code and a message; a message is named by its
-- format, with the values that it prints. The calling identity is an argument.
pub mod Paths
pub mod Incremental
pub mod Callers
mod Examples
use platform_system_vold.Base.{
  ℕ, Bool, true, false, not, ◌&&◌, ◌||◌, List, [], ◌∷◌, if◌then◌else◌, ◌==◌, Text, codes,
  starts_with, ends_with, contains, any, is_alnum, is_xdigit,
}

pub data ExceptionCode : Type 0 where
  ex_security ex_illegal_argument : ExceptionCode

pub data Message : Type 0 where
  lacks_permission : (uid pid : ℕ) (permission : Text) → Message
  uid_not_expected : (uid expected : ℕ) → Message
  missing_id missing_path : Message
  id_malformed path_relative path_shady path_malformed hex_malformed not_allowed : Text → Message

pub data Status : Type 0 where
  ok : Status
  exception : ExceptionCode → Message → Status

abbrev pub is_ok : Status → Bool
is_ok ok = true
is_ok (exception code msg) = false

-- What `checkCallingPermission` returns and stores.
pub record Caller : Type 0 where
  pub granted : Bool
  pub pid : ℕ
  pub uid : ℕ

unfoldable pub check_permission : (Text → Caller) → Text → Status
check_permission checkCallingPermission permission =
    let caller = checkCallingPermission permission in
    if caller.granted
    then ok
    else exception ex_security (lacks_permission caller.uid caller.pid permission)

abbrev pub aid_root : ℕ
aid_root = 0

unfoldable pub check_uid_or_root : ℕ → ℕ → Status
check_uid_or_root uid expected =
    if uid == expected || uid == aid_root
    then ok
    else exception ex_security (uid_not_expected uid expected)

unfoldable pub id_char : ℕ → Bool
id_char c = is_alnum c || c == b':' || c == b',' || c == b';'

unfoldable pub check_argument_id : Text → Status
unfolding id_char
check_argument_id [] = exception ex_illegal_argument missing_id
check_argument_id (c ∷ cs) =
    let id = c ∷ cs in
    if any (λ c. not (id_char c)) id then exception ex_illegal_argument (id_malformed id) else ok

-- A character that ends the text or the line.
abbrev pub ends_line : ℕ → Bool
ends_line c = c == 0 || c == 10

unfoldable pub check_argument_path : Text → Status
check_argument_path [] = exception ex_illegal_argument missing_path
check_argument_path (c ∷ cs) =
    let path = c ∷ cs in
    if not (c == b'/')
    then exception ex_illegal_argument (path_relative path)
    else if contains path (codes "/../") || ends_with path (codes "/..")
    then exception ex_illegal_argument (path_shady path)
    else if any ends_line path
    then exception ex_illegal_argument (path_malformed path)
    else ok

unfoldable pub check_argument_hex : Text → Status
check_argument_hex hex =
    if any (λ c. not (is_xdigit c || c == b':' || c == b'-')) hex
    then exception ex_illegal_argument (hex_malformed hex)
    else ok

pub data IncrementalPathKind : Type 0 where
  mount_source mount_target bind any_kind : IncrementalPathKind

abbrev pub may_be_mount : IncrementalPathKind → Bool
may_be_mount mount_source = true
may_be_mount mount_target = true
may_be_mount any_kind = true
may_be_mount bind = false

abbrev pub may_be_bind : IncrementalPathKind → Bool
may_be_bind bind = true
may_be_bind any_kind = true
may_be_bind _ = false

abbrev pub is_mount_source : IncrementalPathKind → Bool
is_mount_source mount_source = true
is_mount_source _ = false

abbrev pub is_mount_target : IncrementalPathKind → Bool
is_mount_target mount_target = true
is_mount_target _ = false

unfoldable pub under_mt : Text → Bool
under_mt path = starts_with path (codes "/data/incremental/MT_")

unfoldable pub in_mount : Text → Bool
in_mount path = ends_with path (codes "/mount") || contains path (codes "/mount/")

unfoldable pub in_backing_store : Text → Bool
in_backing_store path =
    ends_with path (codes "/backing_store") || contains path (codes "/backing_store/")

unfoldable pub under_app : Text → Bool
under_app path = starts_with path (codes "/data/app/")

unfoldable pub check_incremental_path : IncrementalPathKind → Text → Status
check_incremental_path kind path = elim (check_argument_path path) [
  | exception code msg ↦ exception code msg
  | ok ↦
      if may_be_mount kind && under_mt path && not (is_mount_source kind) && in_mount path
      then ok
      else if may_be_mount kind
          && under_mt path
          && not (is_mount_target kind)
          && in_backing_store path
      then ok
      else if may_be_bind kind && under_app path
      then ok
      else exception ex_illegal_argument (not_allowed path)
]
