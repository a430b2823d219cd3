-- ===== src/Volume/Setters.antt =====
-- model/VolumeBase.cpp: the setters, with their guards, and the list of stacked volumes. A stacked
-- volume is named by its id where the source compares pointers.
use platform_system_vold.Base.{
  ℕ, Bool, true, false, not, Option, none, some, if◌then◌else◌, Text, text_eq,
}
use platform_system_vold.Volume.Types.{
  State, checking, ok, err, ebusy, path_changed, internal_path_changed, Volume, node, Volumes, nil,
  cons, fields, Outcome,
}
use platform_system_vold.Volume.{is_settled, notify, unchanged}

abbrev pub is_checking : State → Bool
is_checking checking = true
is_checking _ = false

-- A setter that stores `w` where its guard allows it and reports `EBUSY` where not.
abbrev guarded : Bool → Volume → Volume → Outcome
guarded allowed v w = if allowed then unchanged w ok else unchanged v (err ebusy)

unfoldable pub set_disk_id : Text → Volume → Outcome
set_disk_id disk_id (node f vs) =
    guarded (not f.created) (node f vs) (node (record f { disk_id = disk_id }) vs)

unfoldable pub set_part_guid : Text → Volume → Outcome
set_part_guid part_guid (node f vs) =
    guarded (not f.created) (node f vs) (node (record f { part_guid = part_guid }) vs)

unfoldable pub set_mount_flags : ℕ → Volume → Outcome
set_mount_flags flags (node f vs) =
    guarded (is_settled f.state) (node f vs) (node (record f { mount_flags = flags }) vs)

unfoldable pub set_mount_user_id : ℕ → Volume → Outcome
set_mount_user_id user (node f vs) =
    guarded (is_settled f.state) (node f vs) (node (record f { mount_user_id = user }) vs)

unfoldable pub set_silent : Bool → Volume → Outcome
set_silent silent (node f vs) =
    guarded (not f.created) (node f vs) (node (record f { silent = silent }) vs)

unfoldable pub set_id : Text → Volume → Outcome
set_id id (node f vs) = guarded (not f.created) (node f vs) (node (record f { id = id }) vs)

unfoldable pub set_path : Bool → Text → Volume → Outcome
set_path has_listener path (node f vs) =
    if is_checking f.state
    then record {
      volume = node (record f { path = path }) vs;
      status = ok;
      events = notify has_listener f (path_changed f.id path);
    }
    else unchanged (node f vs) (err ebusy)

unfoldable pub set_internal_path : Bool → Text → Volume → Outcome
set_internal_path has_listener path (node f vs) =
    if is_checking f.state
    then record {
      volume = node (record f { internal_path = path }) vs;
      status = ok;
      events = notify has_listener f (internal_path_changed f.id path);
    }
    else unchanged (node f vs) (err ebusy)

unfoldable pub set_mount_callback : ℕ → Volume → Outcome
set_mount_callback callback (node f vs) =
    unchanged (node (record f { mount_callback = some callback }) vs) ok

-- `push_back`.
unfoldable pub push_back : Volume → Volumes → Volumes
push_back w nil = cons w nil
push_back w (cons v vs) = cons v (push_back w vs)

unfoldable pub add_volume : Volume → Volume → Volume
unfolding push_back
add_volume w (node f vs) = node f (push_back w vs)

-- `std::list::remove` takes out every entry that is the same pointer, for which the identifier
-- stands: it is unique while a volume is alive.
unfoldable pub without : Text → Volumes → Volumes
without id nil = nil
without id (cons v vs) =
    let rest = without id vs in if text_eq (fields v).id id then rest else cons v rest

unfoldable pub remove_volume : Text → Volume → Volume
unfolding without
remove_volume id (node f vs) = node f (without id vs)

unfoldable pub find_in : Text → Volumes → Option Volume
find_in id nil = none
find_in id (cons v vs) = if text_eq (fields v).id id then some v else find_in id vs

unfoldable pub find_volume : Text → Volume → Option Volume
unfolding find_in
find_volume id (node f vs) = find_in id vs
