-- ===== src/Volume/Examples.antt =====
-- A stack of two volumes, and the theorems about volumes at it.
use platform_system_vold.Base.{◌≡◌, refl, inl, inr, true, false, [], ◌∷◌, some, none, arith, codes}
use platform_system_vold.Volume.Types.{
  checking, stub, state_changed, metadata_changed, internal_path_changed, path_changed, private,
  emulated, mounted, unmounted, bad_removal, ok, Volume, node, nil, cons, fields, stacked, Outcome,
  Hooks,
}
use platform_system_vold.Volume.{
  unchanged, base_do_create, base_do_destroy, base_do_post_mount, base_do_format, destroy, mount,
}
use platform_system_vold.Volume.Stub.{StubFields, stub_hooks, mount_stub}
use platform_system_vold.Volume.Laws.{HookLaws, IsSound, Keeps}
use platform_system_vold.Volume.Destroy.{destroy_total}
use platform_system_vold.Volume.Transitions.{formats, step, step_total}
use platform_system_vold.Volume.Announcements.{
  IsQuiet, IsAudible, destroyed_ids, post_order, destroy_announces_stack,
}

-- The base class with a mount and an unmount that do nothing and succeed.
abbrev plain_hooks : Hooks
plain_hooks = record {
  do_create = base_do_create;
  do_destroy = base_do_destroy;
  do_mount = λ v. unchanged v ok;
  do_post_mount = base_do_post_mount;
  do_unmount = λ v. unchanged v ok;
  do_format = base_do_format;
}

Keeps-itself : (v : Volume) → Keeps v v
Keeps-itself v = ground arith

plain_laws : HookLaws plain_hooks
unfolding base_do_create base_do_destroy base_do_post_mount base_do_format
plain_laws = record {
  create_keeps = Keeps-itself;
  destroy_keeps = Keeps-itself;
  mount_keeps = Keeps-itself;
  unmount_keeps = Keeps-itself;
  format_keeps = λ t v. Keeps-itself v;
  post_mount_created = λ v. refl;
  post_mount_state = λ v. refl;
  post_mount_sound = λ v s. s;
}

plain-IsQuiet : IsQuiet plain_hooks
unfolding base_do_destroy
plain-IsQuiet = record { quiet_unmount = λ v. refl; quiet_destroy = λ v. refl }

abbrev upper : Volume
upper =
    node
      (record {
        id = codes "emulated;10";
        disk_id = [];
        part_guid = [];
        type = emulated;
        mount_flags = 0;
        mount_user_id = 10;
        created = true;
        state = unmounted;
        path = [];
        internal_path = [];
        silent = false;
        mount_callback = none;
      })
      nil

abbrev lower : Volume
lower =
    node
      (record {
        id = codes "private:8,1";
        disk_id = [];
        part_guid = [];
        type = private;
        mount_flags = 0;
        mount_user_id = 0;
        created = true;
        state = mounted;
        path = codes "/mnt/expand";
        internal_path = [];
        silent = false;
        mount_callback = none;
      })
      (cons upper nil)

lower-IsSound : IsSound lower
unfolding IsSound
lower-IsSound = (refl, λ e. refl, inl refl, (refl, (refl, λ e. refl, inr refl, tt), tt))

lower-IsAudible : IsAudible lower
unfolding IsAudible
lower-IsAudible = (refl, ((refl, tt), tt))

destroy_total_example :
    (o : Outcome) × (destroy true plain_hooks lower ≡ some o)
    × ((fields o.volume).created ≡ false)
    × ((fields o.volume).state ≡ bad_removal)
    × (stacked o.volume ≡ nil)
destroy_total_example = destroy_total true plain_hooks plain_laws lower lower-IsSound refl

step_total_example :
    (o : Outcome) × (step true plain_hooks (formats (codes "ext4")) lower ≡ some o)
    × IsSound o.volume
step_total_example =
    step_total true plain_hooks plain_laws (formats (codes "ext4")) lower lower-IsSound refl

destroy_announces_stack_example :
    (o : Outcome) × (destroy true plain_hooks lower ≡ some o)
    × (destroyed_ids o.events ≡ codes "emulated;10" ∷ codes "private:8,1" ∷ [])
unfolding post_order
destroy_announces_stack_example =
    destroy_announces_stack plain_hooks plain_laws plain-IsQuiet lower lower-IsSound refl
      lower-IsAudible

abbrev host_stub : StubFields
host_stub = record {
  source_path = codes "/host/src";
  mount_path = codes "/storage/host";
  fs_type = codes "9p";
  fs_uuid = [];
  fs_label = codes "Host";
}

abbrev host_volume : Volume
host_volume =
    node
      (record {
        id = codes "stub:1";
        disk_id = [];
        part_guid = [];
        type = stub;
        mount_flags = 0;
        mount_user_id = 0;
        created = true;
        state = unmounted;
        path = [];
        internal_path = [];
        silent = false;
        mount_callback = none;
      })
      nil

mount_stub_example :
    ((mount true (stub_hooks true host_stub) host_volume).status ≡ ok)
    × ((mount true (stub_hooks true host_stub) host_volume).volume
        ≡ node
            (record (fields host_volume) {
              state = mounted;
              path = codes "/storage/host";
              internal_path = codes "/host/src";
            })
            nil)
    × ((mount true (stub_hooks true host_stub) host_volume).events
        ≡ state_changed (codes "stub:1") checking 0
          ∷ metadata_changed (codes "stub:1") (codes "9p") [] (codes "Host")
          ∷ internal_path_changed (codes "stub:1") (codes "/host/src")
          ∷ path_changed (codes "stub:1") (codes "/storage/host")
          ∷ state_changed (codes "stub:1") mounted 0
          ∷ [])
mount_stub_example = mount_stub host_stub host_volume refl refl
