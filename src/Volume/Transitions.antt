-- ===== src/Volume/Transitions.antt =====
-- The five operations of a volume as steps, and when its callers may call them.
use platform_system_vold.Base.{
  ◌≡◌, refl, inl, inr, Bool, true, false, List, [], Option, some, arith, Text, Bool-cases, ◌∙◌,
}
use platform_system_vold.Volume.Types.{
  State, checking, mounted, formatting, Event, Volume, node, nil, fields, stacked, Outcome, Hooks,
  err, is_ok, ebusy,
}
use platform_system_vold.Volume.Laws.{IsSound, HookLaws, IsSound-intro, IsSound-parts, AreSound-nil}
use platform_system_vold.Volume.Destroy.{destroy_total, unmount_total, close_lem}
use platform_system_vold.Volume.{
  is_mounted, is_settled, set_state, set_created, unchanged, create_new, after_mount, create, mount,
  close, destroy, unmount, format_unmounted, format,
}

pub data Op : Type 0 where
  creates mounts unmounts destroys : Op
  formats : Text → Op

module _ (has_listener : Bool) (h : Hooks) where
  unfoldable pub step : Op → Volume → Option Outcome
  step creates v = create has_listener h v
  step mounts v = some (mount has_listener h v)
  step unmounts v = unmount has_listener h v
  step destroys v = destroy has_listener h v
  step (formats fs_type) v = format has_listener h fs_type v

-- What the callers see to: a volume is created once, and the rest is for created volumes.
abbrev pub wants_created : Op → Bool
wants_created creates = false
wants_created _ = true

is_mounted→eq : (s : State) → is_mounted s ≡ true → s ≡ mounted
is_mounted→eq s h = ground arith

module _ (has_listener : Bool) (h : Hooks) (laws : HookLaws h) where
  create_new-IsSound :
      (v : Volume)
      → IsSound v
      → (fields v).created ≡ false
      → IsSound (create_new has_listener h v).volume
  unfolding create_new set_state
  create_new-IsSound v s c =
      let parts = IsSound-parts v s in
      let w = (create_new has_listener h v).volume in
      let k = laws.create_keeps (set_created true v) in
      let alone : stacked v ≡ nil = ground (arith, parts) in
      let alone' : stacked w ≡ nil = k.same_stacked ∙ alone in
      IsSound-intro w refl (λ e. cc) (inr alone') (AreSound-nil (stacked w) alone')

  after_mount-IsSound :
      (o : Outcome)
      → stacked o.volume ≡ nil
      → (fields o.volume).created ≡ true
      → IsSound (after_mount has_listener h o).volume
  unfolding after_mount set_state
  after_mount-IsSound o alone c = elim (Bool-cases (is_ok o.status)) [
    | inl e ↦
        let w = (h.do_post_mount v3).0 in
        rw e (
          IsSound-intro w (rw (laws.post_mount_state v3)) (λ _. laws.post_mount_created v3 ∙ c)
            (inl (laws.post_mount_state v3))
            (laws.post_mount_sound v3 (AreSound-nil (stacked o.volume) alone)))
    | inr e ↦
        rw e (IsSound-intro _ refl (λ m. cc) (inr alone) (AreSound-nil (stacked o.volume) alone))
  ]
    where
      v3 : Volume
      v3 = node (record (fields o.volume) { state = mounted }) (stacked o.volume)

  mount-IsSound :
      (v : Volume) → IsSound v → (fields v).created ≡ true → IsSound (mount has_listener h v).volume
  unfolding mount set_state
  mount-IsSound v s c = elim (Bool-cases (is_settled (fields v).state)) [
    | inl e ↦
        let alone : stacked v ≡ nil = ground (arith, IsSound-parts v s) in
        let k = laws.mount_keeps v1 in
        rw e (after_mount-IsSound (h.do_mount v1) (k.same_stacked ∙ alone) (k.same_created ∙ c))
    | inr e ↦ rw e s
  ]
    where
      v1 : Volume
      v1 = node (record (fields v) { state = checking }) (stacked v)

  close-IsSound : (v : Volume) (es : List Event) → IsSound (close has_listener h v es).volume
  close-IsSound v es =
      let (state, _, alone) = close_lem has_listener h laws v es in
      IsSound-intro _ (rw state) (λ m. cc state) (inr alone) (AreSound-nil _ alone)

  format_unmounted-IsSound :
      (fs_type : Text) (v : Volume) (es : List Event)
      → IsSound v
      → IsSound (format_unmounted has_listener h fs_type v es).volume
  unfolding format_unmounted set_state
  format_unmounted-IsSound fs_type v es s = elim (Bool-cases (is_settled (fields v).state)) [
    | inl e ↦
        let alone : stacked v ≡ nil = ground (arith, IsSound-parts v s) in
        let k = laws.format_keeps fs_type v1 in
        let alone' = k.same_stacked ∙ alone in
        rw e (IsSound-intro _ refl (λ m. cc) (inr alone') (AreSound-nil _ alone'))
    | inr e ↦ rw e s
  ]
    where
      v1 : Volume
      v1 = node (record (fields v) { state = formatting }) (stacked v)

  unmount_refused :
      (v : Volume)
      → is_mounted (fields v).state ≡ false
      → unmount has_listener h v ≡ some (unchanged v (err ebusy))
  unfolding unmount
  unmount_refused v e = rw e

  unmount-IsSound :
      (v : Volume)
      → IsSound v
      → (o : Outcome) × (unmount has_listener h v ≡ some o) × IsSound o.volume
  unmount-IsSound v s = elim (Bool-cases (is_mounted (fields v).state)) [
    | inl e ↦
        let (es, u) = unmount_total has_listener h laws v s (is_mounted→eq _ e) in
        (close has_listener h v es, u, close-IsSound v es)
    | inr e ↦ (unchanged v (err ebusy), unmount_refused v e, s)
  ]

  format-IsSound :
      (fs_type : Text) (v : Volume)
      → IsSound v
      → (o : Outcome) × (format has_listener h fs_type v ≡ some o) × IsSound o.volume
  unfolding format
  format-IsSound fs_type v s = elim (Bool-cases (is_mounted (fields v).state)) [
    | inl e ↦
        let (o, u, sound) = unmount-IsSound v s in
        (
          format_unmounted has_listener h fs_type o.volume o.events,
          rw (e, u),
          format_unmounted-IsSound fs_type o.volume o.events sound,
        )
    | inr e ↦ (
      format_unmounted has_listener h fs_type v [],
      rw e,
      format_unmounted-IsSound fs_type v [] s,
    )
  ]

  destroy-IsSound :
      (v : Volume)
      → IsSound v
      → (fields v).created ≡ true
      → (o : Outcome) × (destroy has_listener h v ≡ some o) × IsSound o.volume
  destroy-IsSound v s c =
      let (o, e, created, state, alone) = destroy_total has_listener h laws v s c in
      (
        o,
        e,
        IsSound-intro o.volume (ground (arith, state)) (ground (arith, state)) (inr alone)
            (AreSound-nil _ alone),
      )

  -- For a sound volume, with virtual functions that obey the laws: none of `create`, `mount`,
  -- `unmount`, `destroy` and `format` fails a `CHECK`, if the volume is created and, for `create`, if
  -- it is not, and the volume that the call leaves is sound again.
  pub step_total :
      (op : Op) (v : Volume)
      → IsSound v
      → (fields v).created ≡ wants_created op
      → (o : Outcome) × (step has_listener h op v ≡ some o) × IsSound o.volume
  unfolding step create
  step_total creates v s c = (create_new has_listener h v, rw c, create_new-IsSound v s c)
  step_total mounts v s c = (mount has_listener h v, refl, mount-IsSound v s c)
  step_total unmounts v s c = unmount-IsSound v s
  step_total destroys v s c = destroy-IsSound v s c
  step_total (formats fs_type) v s c = format-IsSound fs_type v s
