-- ===== src/Volume.antt =====
-- model/VolumeBase.cpp: the life of a volume. The listener of `VolumeManager` and the virtual
-- functions are parameters; `none` is a failed `CHECK`, which aborts the process.
pub mod Types
pub mod Setters
pub mod Laws
pub mod Transitions
pub mod Destroy
pub mod Announcements
pub mod Stub
pub mod Changes
mod Examples
use platform_system_vold.Base.{
  ℕ, ◌-◌, ◌^◌, Bool, true, false, not, ◌&&◌, ◌||◌, List, [], ◌∷◌, ◌++◌, Option, none, some,
  if◌then◌else◌, Text,
}
use Types.{
  VolumeType, State, unmounted, checking, mounted, formatting, ejecting, unmountable, removed,
  bad_removal, Status, ok, err, is_ok, ebusy, enotsup, Event, volume_created, state_changed,
  volume_destroyed, Fields, Volume, node, Volumes, nil, cons, fields, stacked, Outcome, Hooks,
}

abbrev pub is_mounted : State → Bool
is_mounted mounted = true
is_mounted _ = false

-- `kUnmounted` or `kUnmountable`: what a mount, a format and some setters want.
abbrev pub is_settled : State → Bool
is_settled unmounted = true
is_settled unmountable = true
is_settled _ = false

abbrev pub user_unknown : ℕ
user_unknown = 2 ^ 32 - 1

unfoldable pub new_volume : VolumeType → Volume
new_volume type =
    node
      (record {
        id = [];
        disk_id = [];
        part_guid = [];
        type = type;
        mount_flags = 0;
        mount_user_id = user_unknown;
        created = false;
        state = unmounted;
        path = [];
        internal_path = [];
        silent = false;
        mount_callback = none;
      })
      nil

abbrev pub unchanged : Volume → Status → Outcome
unchanged v res = record { volume = v; status = res; events = [] }

unfoldable pub base_do_create : Volume → Outcome
base_do_create v = unchanged v ok

unfoldable pub base_do_destroy : Volume → Outcome
base_do_destroy v = unchanged v ok

unfoldable pub base_do_post_mount : Volume → Volume × List Event
base_do_post_mount v = (v, [])

unfoldable pub base_do_format : Text → Volume → Outcome
base_do_format fs_type v = unchanged v (err enotsup)

abbrev pub clear_stacked : Volume → Volume
clear_stacked v = node (fields v) nil

abbrev pub set_created : Bool → Volume → Volume
set_created b v = node (record (fields v) { created = b }) (stacked v)

-- `has_listener`: `VolumeManager` holds a listener.
module _ (has_listener : Bool) where
  -- The call of a listener that `getListener` returns.
  abbrev pub notify : Fields → Event → List Event
  notify f e = if has_listener && not f.silent then e ∷ [] else []

  unfoldable pub set_state : State → Volume → Volume × List Event
  set_state s v =
      let f = fields v in
      (
        node (record (fields v) { state = s }) (stacked v),
        notify f (state_changed f.id s f.mount_user_id),
      )

  module _ (h : Hooks) where
    -- `create` behind its `CHECK`.
    unfoldable pub create_new : Volume → Outcome
    create_new v =
        let o = h.do_create (set_created true v) in
        let f = fields o.volume in
        let told = notify f (volume_created f.id f.type f.disk_id f.part_guid f.mount_user_id) in
        let (w, changed) = set_state unmounted o.volume in
        record { volume = w; status = o.status; events = o.events ++ (told ++ changed) }

    unfoldable pub create : Volume → Option Outcome
    create v = if (fields v).created then none else some (create_new v)

    -- `mount` from `doMount`'s return on.
    unfoldable pub after_mount : Outcome → Outcome
    after_mount o =
        let (v3, e3) = set_state (if is_ok o.status then mounted else unmountable) o.volume in
        let (v4, e4) = if is_ok o.status then h.do_post_mount v3 else (v3, []) in
        record { volume = v4; status = o.status; events = o.events ++ (e3 ++ e4) }

    unfoldable pub mount : Volume → Outcome
    mount v =
        let (v1, e1) = set_state checking v in
        let o = after_mount (h.do_mount v1) in
        if not (is_settled (fields v).state)
        then unchanged v (err ebusy)
        else record o { events = e1 ++ o.events }

    -- `unmount` behind its guard, given the events of the stacked volumes' destruction.
    unfoldable pub close : Volume → List Event → Outcome
    close v above =
        let (v1, e1) = set_state ejecting v in
        let o = h.do_unmount (clear_stacked v1) in
        let (v3, e3) = set_state unmounted o.volume in
        record { volume = v3; status = o.status; events = e1 ++ (above ++ (o.events ++ e3)) }

    -- `destroy` from the choice of the last state on; `before` are the events so far.
    unfoldable pub retire : State → Volume → List Event → Outcome
    retire last v before =
        let (v1, e1) = set_state last v in
        let gone = notify (fields v1) (volume_destroyed (fields v1).id) in
        let o = h.do_destroy v1 in
        record {
          volume = set_created false o.volume;
          status = o.status;
          events = before ++ (e1 ++ (gone ++ o.events));
        }

    unfoldable pub destroy_with : Volume → Option (List Event) → Option Outcome
    destroy_with v above =
        if not (fields v).created
        then none
        else if is_mounted (fields v).state
        then elim above [
          | none ↦ none
          | some events ↦ let o = close v events in some (retire bad_removal o.volume o.events)
        ]
        else some (retire removed v [])

    -- The events of one stacked volume's destruction before those of the others.
    unfoldable pub then_events : Option Outcome → Option (List Event) → Option (List Event)
    then_events none rest = none
    then_events (some o) none = none
    then_events (some o) (some events) = some (o.events ++ events)

    unfoldable mutual
      pub destroy : Volume → Option Outcome
      destroy (node f vs) = destroy_with (node f vs) (destroy_all vs)

      pub destroy_all : Volumes → Option (List Event)
      destroy_all nil = some []
      destroy_all (cons v vs) = then_events (destroy v) (destroy_all vs)

    unfoldable pub unmount : Volume → Option Outcome
    unmount v =
        if not (is_mounted (fields v).state)
        then some (unchanged v (err ebusy))
        else elim (destroy_all (stacked v)) [ none ↦ none | some events ↦ some (close v events) ]

    -- `format` once the volume is unmounted.
    unfoldable pub format_unmounted : Text → Volume → List Event → Outcome
    format_unmounted fs_type v before =
        let (v1, e1) = set_state formatting v in
        let o = h.do_format fs_type v1 in
        let (v3, e3) = set_state unmounted o.volume in
        if not (is_settled (fields v).state)
        then record { volume = v; status = err ebusy; events = before }
        else record { volume = v3; status = o.status; events = before ++ (e1 ++ (o.events ++ e3)) }

    unfoldable pub format : Text → Volume → Option Outcome
    format fs_type v =
        if is_mounted (fields v).state
        then elim (unmount v) [
          | none ↦ none
          | some o ↦ some (format_unmounted fs_type o.volume o.events)
        ]
        else some (format_unmounted fs_type v [])
