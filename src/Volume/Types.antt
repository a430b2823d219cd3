-- ===== src/Volume/Types.antt =====
-- model/VolumeBase.h: the state of a volume, the events that its listener receives and the virtual
-- functions of the classes that derive from `VolumeBase`.
use platform_system_vold.Base.{ℕ, Bool, true, false, List, Option, Text}

pub data VolumeType : Type 0 where
  public private emulated asec obb stub : VolumeType

pub data State : Type 0 where
  unmounted checking mounted mounted_read_only formatting ejecting unmountable removed bad_removal :
      State

-- A `status_t`: `OK` or a negated error number.
pub data Status : Type 0 where
  ok : Status
  err : ℕ → Status

abbrev pub is_ok : Status → Bool
is_ok ok = true
is_ok (err n) = false

abbrev pub ebusy : ℕ
ebusy = 16

abbrev pub enotsup : ℕ
enotsup = 95

pub data Event : Type 0 where
  volume_created : (id : Text) → VolumeType → (disk_id part_guid : Text) → (user : ℕ) → Event
  state_changed : (id : Text) → State → (user : ℕ) → Event
  path_changed internal_path_changed : (id path : Text) → Event
  volume_destroyed : (id : Text) → Event
  metadata_changed : (id fs_type fs_uuid fs_label : Text) → Event

-- The members of `VolumeBase` but the stacked volumes. A callback is named by a number.
pub record Fields : Type 0 where
  pub id : Text
  pub disk_id : Text
  pub part_guid : Text
  pub type : VolumeType
  pub mount_flags : ℕ
  pub mount_user_id : ℕ
  pub created : Bool
  pub state : State
  pub path : Text
  pub internal_path : Text
  pub silent : Bool
  pub mount_callback : Option ℕ

mutual
  -- A volume and the volumes stacked on top of it.
  pub data Volume : Type 0 where
    node : Fields → Volumes → Volume

  pub data Volumes : Type 0 where
    nil : Volumes
    cons : Volume → Volumes → Volumes

abbrev pub fields : Volume → Fields
fields (node f vs) = f

abbrev pub stacked : Volume → Volumes
stacked (node f vs) = vs

-- What an operation leaves behind: the volume, the result and the events in order.
pub record Outcome : Type 0 where
  pub volume : Volume
  pub status : Status
  pub events : List Event

-- The virtual functions. Each sees the volume and may change it and send events.
pub record Hooks : Type 0 where
  pub do_create : Volume → Outcome
  pub do_destroy : Volume → Outcome
  pub do_mount : Volume → Outcome
  pub do_post_mount : Volume → Volume × List Event
  pub do_unmount : Volume → Outcome
  pub do_format : Text → Volume → Outcome
