-- ===== src/Disk/Volumes.antt =====
-- model/Disk.cpp: the lookups in the volumes of a disk.
use platform_system_vold.Base.{
  ◌≡◌, refl, Bool, true, false, ◌||◌, List, [], ◌∷◌, ◌++◌, Option, none, some, arith, if◌then◌else◌,
  any, Text, text_eq,
}
use platform_system_vold.Volume.Types.{
  Volume, node, Volumes, nil, cons, VolumeType, fields, stacked,
}
use platform_system_vold.Volume.Setters.{find_in, find_volume}

abbrev pub or_else : Option Volume → Option Volume → Option Volume
or_else (some v) o = some v
or_else none o = o

abbrev pub has_id : Text → Volume → Bool
has_id id v = text_eq (fields v).id id

-- `Disk::findVolume`: a volume, or one stacked on it, before those behind.
unfoldable pub find_disk_volume : Text → List Volume → Option Volume
find_disk_volume id [] = none
find_disk_volume id (v ∷ vs) =
    let rest = find_disk_volume id vs in
    if has_id id v then some v else or_else (find_volume id v) rest

-- `Disk::listVolumes`, for a test of the type.
unfoldable pub list_volumes : (VolumeType → Bool) → List Volume → List Text
list_volumes p [] = []
list_volumes p (v ∷ vs) =
    let rest = list_volumes p vs in if p (fields v).type then (fields v).id ∷ rest else rest

abbrev pub as_list : Volumes → List Volume
as_list nil = []
as_list (cons v vs) = v ∷ as_list vs

-- `Disk::getVolumes`.
unfoldable pub get_volumes : List Volume → List Volume
get_volumes [] = []
get_volumes (v ∷ vs) = v ∷ (as_list (stacked v) ++ get_volumes vs)

abbrev pub is_some : Option Volume → Bool
is_some none = false
is_some (some v) = true

is_some-or_else : (a b : Option Volume) → is_some (or_else a b) ≡ (is_some a || is_some b)
is_some-or_else none b = refl
is_some-or_else (some v) b = refl

any-append : (p : Volume → Bool) (xs ys : List Volume) → any p (xs ++ ys) ≡ (any p xs || any p ys)
any-append p [] ys = refl
any-append p (x ∷ xs) ys = ground (arith, any-append p xs ys)

find_in_found : (id : Text) (vs : Volumes) → is_some (find_in id vs) ≡ any (has_id id) (as_list vs)
unfolding find_in
find_in_found id nil = refl
find_in_found id (cons v vs) = ground (arith, find_in_found id vs)

find_volume_found :
    (id : Text) (v : Volume) → is_some (find_volume id v) ≡ any (has_id id) (as_list (stacked v))
unfolding find_volume
find_volume_found id (node f vs) = find_in_found id vs

-- `findVolume` finds a volume for an identifier exactly if `getVolumes` lists one that has it.
pub find_disk_volume-get_volumes :
    (id : Text) (vs : List Volume)
    → is_some (find_disk_volume id vs) ≡ any (has_id id) (get_volumes vs)
unfolding find_disk_volume get_volumes
find_disk_volume-get_volumes id [] = refl
find_disk_volume-get_volumes id (v ∷ vs) = ground (
  arith,
  is_some-or_else (find_volume id v) (find_disk_volume id vs),
  any-append (has_id id) (as_list (stacked v)) (get_volumes vs),
  find_volume_found id v,
  find_disk_volume-get_volumes id vs,
)
