-- ===== src/Validation/Incremental.antt =====
-- Which incremental paths pass, by the components of the path.
use platform_system_vold.Base.{
  ◌≡◌, refl, sym, ap, ◌∙◌, ◌↔◌, ◌⊎◌, Bool, true, ◌||◌, ◌&&◌, [], ◌∷◌, ◌++◌, arith, Text, codes,
  text_eq, starts_with, ends_with, contains, any,
}
use platform_system_vold.Validation.{
  ok, IncrementalPathKind, mount_source, mount_target, bind, any_kind, check_incremental_path,
  under_mt, in_mount, in_backing_store, under_app,
}
use platform_system_vold.Validation.Paths.{
  split_slash, some_component, IsPlainPath, check_argument_path_iff,
}

starts_with-append : (s p : Text) → starts_with s p ≡ true → (rest : Text) × (s ≡ p ++ rest)
starts_with-append s [] h = (s, refl)
starts_with-append [] (d ∷ p) h = cc
starts_with-append (c ∷ s) (d ∷ p) h =
    let (rest, e) = starts_with-append s p (ground arith) in (rest, ground arith)

append-starts_with : (p rest : Text) → starts_with (p ++ rest) p ≡ true
append-starts_with [] rest = refl
append-starts_with (d ∷ p) rest = ground (arith, append-starts_with p rest)

-- The path begins with the prefix.
abbrev pub IsUnder : (prefix path : Text) → Type 0
IsUnder prefix path = (rest : Text) × (path ≡ prefix ++ rest)

starts_with-IsUnder : (prefix path : Text) → (starts_with path prefix ≡ true) ↔ IsUnder prefix path
starts_with-IsUnder prefix path = (
  starts_with-append path prefix,
  λ u. ap (λ s. starts_with s prefix) u.1 ∙ append-starts_with prefix u.0,
)

-- A place below a mount of incremental storage, in the directory `name` of it.
abbrev pub IsMountPlace : (name path : Text) → Type 0
IsMountPlace name path =
    IsUnder (codes "/data/incremental/MT_") path
    × (any (λ c. text_eq c name) (split_slash path).1 ≡ true)

-- Where a path of the kind may be.
abbrev pub IsPlaceFor : IncrementalPathKind → Text → Type 0
IsPlaceFor mount_source path = IsMountPlace (codes "backing_store") path
IsPlaceFor mount_target path = IsMountPlace (codes "mount") path
IsPlaceFor bind path = IsUnder (codes "/data/app/") path
IsPlaceFor any_kind path =
    IsMountPlace (codes "backing_store") path
    ⊎ (IsMountPlace (codes "mount") path ⊎ IsUnder (codes "/data/app/") path)

or_comm : (a b : Bool) → (a || b) ≡ (b || a)
or_comm a b = ground arith

in_mount-component :
    (path : Text) → in_mount path ≡ any (λ c. text_eq c (codes "mount")) (split_slash path).1
unfolding in_mount
in_mount-component path =
    or_comm (ends_with path (codes "/mount")) (contains path (codes "/mount/"))
    ∙ some_component (codes "mount") path refl

in_backing_store-component :
    (path : Text)
    → in_backing_store path ≡ any (λ c. text_eq c (codes "backing_store")) (split_slash path).1
unfolding in_backing_store
in_backing_store-component path =
    or_comm (ends_with path (codes "/backing_store")) (contains path (codes "/backing_store/"))
    ∙ some_component (codes "backing_store") path refl

and_iff : (a b : Bool) → ((a && b) ≡ true) ↔ ((a ≡ true) × (b ≡ true))
and_iff a b = ground arith

place_iff :
    (name path : Text) (found : Bool)
    → found ≡ any (λ c. text_eq c name) (split_slash path).1
    → ((under_mt path && found) ≡ true) ↔ IsMountPlace name path
unfolding under_mt
place_iff name path found same =
    let prefix = codes "/data/incremental/MT_" in
    let under = starts_with-IsUnder prefix path in
    let both = and_iff (starts_with path prefix) found in
    (λ h. let (x, y) = both.0 h in (under.0 x, sym same ∙ y), λ u. both.1 (under.1 u.0, same ∙ u.1))

mount_iff :
    (path : Text) → ((under_mt path && in_mount path) ≡ true) ↔ IsMountPlace (codes "mount") path
mount_iff path = place_iff (codes "mount") path (in_mount path) (in_mount-component path)

store_iff :
    (path : Text)
    → ((under_mt path && in_backing_store path) ≡ true) ↔ IsMountPlace (codes "backing_store") path
store_iff path =
    place_iff (codes "backing_store") path (in_backing_store path) (in_backing_store-component path)

app_iff : (path : Text) → (under_app path ≡ true) ↔ IsUnder (codes "/data/app/") path
unfolding under_app
app_iff path = starts_with-IsUnder (codes "/data/app/") path

-- `CheckIncrementalPath` returns `Ok` exactly on the paths that `CheckArgumentPath` accepts and that
-- are in a place for the kind. A mount target begins with "/data/incremental/MT_" and has a component
-- "mount", a mount source begins in the same way and has a component "backing_store", the target of
-- a bind begins with "/data/app/", and for `kAny` each of the three will do.
pub check_incremental_path_iff :
    (k : IncrementalPathKind) (path : Text)
    → (check_incremental_path k path ≡ ok) ↔ (IsPlainPath path × IsPlaceFor k path)
unfolding check_incremental_path
check_incremental_path_iff mount_source path =
    ground (arith, check_argument_path_iff path, store_iff path)
check_incremental_path_iff mount_target path =
    ground (arith, check_argument_path_iff path, mount_iff path)
check_incremental_path_iff bind path = ground (arith, check_argument_path_iff path, app_iff path)
check_incremental_path_iff any_kind path =
    ground (arith, check_argument_path_iff path, store_iff path, mount_iff path, app_iff path)
