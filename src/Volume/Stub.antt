-- ===== src/Volume/Stub.antt =====
-- model/StubVolume.cpp: a volume that the host of a virtual machine mounts, as an implementation of
-- the virtual functions of `VolumeBase`.
use platform_system_vold.Base.{◌≡◌, refl, Bool, true, false, [], ◌∷◌, ◌++◌, arith, Text}
use platform_system_vold.Volume.Types.{
  Volume, node, fields, Outcome, Hooks, ok, mounted, metadata_changed, checking, state_changed,
  path_changed, internal_path_changed, stacked,
}
use platform_system_vold.Volume.Laws.{HookLaws, Keeps}
use platform_system_vold.Volume.Setters.{set_path, set_internal_path}
use platform_system_vold.Volume.{
  notify, unchanged, base_do_post_mount, is_settled, set_state, after_mount, mount,
}

-- The members of a `StubVolume`.
pub record StubFields : Type 0 where
  pub source_path : Text
  pub mount_path : Text
  pub fs_type : Text
  pub fs_uuid : Text
  pub fs_label : Text

module _ (has_listener : Bool) (stub : StubFields) where
  unfoldable pub stub_do_mount : Volume → Outcome
  stub_do_mount v =
      let f = fields v in
      let told =
        notify has_listener f (metadata_changed f.id stub.fs_type stub.fs_uuid stub.fs_label) in
      let first = set_internal_path has_listener stub.source_path v in
      let second = set_path has_listener stub.mount_path first.volume in
      record {
        volume = second.volume;
        status = ok;
        events = told ++ (first.events ++ second.events);
      }

  abbrev pub stub_hooks : Hooks
  stub_hooks = record {
    do_create = λ v. unchanged v ok;
    do_destroy = λ v. unchanged v ok;
    do_mount = stub_do_mount;
    do_post_mount = base_do_post_mount;
    do_unmount = λ v. unchanged v ok;
    do_format = λ fs_type v. unchanged v ok;
  }

  same : (v : Volume) → Keeps v v
  same v = ground arith

  stub_mount-Keeps : (v : Volume) → Keeps v (stub_do_mount v).volume
  unfolding stub_do_mount set_path set_internal_path
  stub_mount-Keeps (node f vs) = ground arith

  -- A stub volume does what `VolumeBase` relies on.
  pub stub_hooks-HookLaws : HookLaws stub_hooks
  unfolding base_do_post_mount
  stub_hooks-HookLaws = record {
    create_keeps = same;
    destroy_keeps = same;
    mount_keeps = stub_mount-Keeps;
    unmount_keeps = same;
    format_keeps = λ t v. same v;
    post_mount_created = λ v. refl;
    post_mount_state = λ v. refl;
    post_mount_sound = λ v s. s;
  }

-- The mount of a stub volume that is unmounted or unmountable, heard by a listener and not silent,
-- succeeds: the volume is mounted, its path is the one that the host gave and its internal path the
-- source, nothing else of it changes, and the listener hears of the check, of the file system's type,
-- identifier and label, of the internal path, of the path, and of the mount, in this order.
pub mount_stub :
    (stub : StubFields) (v : Volume)
    → is_settled (fields v).state ≡ true
    → (fields v).silent ≡ false
    → let o = mount true (stub_hooks true stub) v in
      let f = fields v in
      (o.status ≡ ok)
      × (o.volume
          ≡ node
              (record f {
                state = mounted;
                path = stub.mount_path;
                internal_path = stub.source_path;
              })
              (stacked v))
      × (o.events
          ≡ state_changed f.id checking f.mount_user_id
            ∷ metadata_changed f.id stub.fs_type stub.fs_uuid stub.fs_label
            ∷ internal_path_changed f.id stub.source_path
            ∷ path_changed f.id stub.mount_path
            ∷ state_changed f.id mounted f.mount_user_id
            ∷ [])
unfolding mount after_mount set_state stub_do_mount set_path set_internal_path base_do_post_mount
mount_stub stub (node f vs) h silent = rw (h, silent) (refl, refl, refl)
