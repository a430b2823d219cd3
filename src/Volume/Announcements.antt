-- ===== src/Volume/Announcements.antt =====
-- What the listener hears of a destruction.
use mathlib.Core.List.{append-nil}
use platform_system_vold.Base.{
  ◌≡◌, refl, ap, ◌∙◌, true, false, List, [], ◌∷◌, ◌++◌, some, arith, Text, inl, inr, Bool-cases,
}
use platform_system_vold.Volume.Types.{
  State, ejecting, removed, bad_removal, Event, volume_created, state_changed, path_changed,
  internal_path_changed, metadata_changed, volume_destroyed, Volume, node, Volumes, nil, cons,
  fields, stacked, Outcome, Hooks,
}
use platform_system_vold.Volume.Laws.{IsSound, AreSound, HookLaws, IsSound-parts}
use platform_system_vold.Volume.Destroy.{destruction, destroy_with_created}
use platform_system_vold.Volume.{
  is_mounted, set_state, close, retire, then_events, destroy, destroy_all,
}

-- The ids of the volumes announced as destroyed, in order.
abbrev pub destroyed_ids : List Event → List Text
destroyed_ids [] = []
destroyed_ids (volume_destroyed id ∷ es) = id ∷ destroyed_ids es
destroyed_ids (volume_created a b c d e ∷ es) = destroyed_ids es
destroyed_ids (state_changed a b c ∷ es) = destroyed_ids es
destroyed_ids (path_changed a b ∷ es) = destroyed_ids es
destroyed_ids (internal_path_changed a b ∷ es) = destroyed_ids es
destroyed_ids (metadata_changed id fs_type fs_uuid fs_label ∷ es) = destroyed_ids es

destroyed_ids-append :
    (es fs : List Event) → destroyed_ids (es ++ fs) ≡ destroyed_ids es ++ destroyed_ids fs
destroyed_ids-append [] fs = refl
destroyed_ids-append (volume_destroyed id ∷ es) fs = ap (λ t. id ∷ t) (destroyed_ids-append es fs)
destroyed_ids-append (volume_created a b c d e ∷ es) fs = destroyed_ids-append es fs
destroyed_ids-append (state_changed a b c ∷ es) fs = destroyed_ids-append es fs
destroyed_ids-append (path_changed a b ∷ es) fs = destroyed_ids-append es fs
destroyed_ids-append (internal_path_changed a b ∷ es) fs = destroyed_ids-append es fs
destroyed_ids-append (metadata_changed a b c d ∷ es) fs = destroyed_ids-append es fs

-- The ids of a stack of volumes, each behind those of the volumes on top of it.
unfoldable mutual
  pub post_order : Volume → List Text
  post_order (node f vs) = post_order_all vs ++ (f.id ∷ [])

  pub post_order_all : Volumes → List Text
  post_order_all nil = []
  post_order_all (cons v vs) = post_order v ++ post_order_all vs

-- No volume of the stack is silent.
unfoldable mutual
  pub IsAudible : Volume → Type 0
  IsAudible (node f vs) = (f.silent ≡ false) × AreAudible vs

  pub AreAudible : Volumes → Type 0
  AreAudible nil = Unit {0}
  AreAudible (cons v vs) = IsAudible v × AreAudible vs

-- The virtual functions leave the announcement of a destruction to `VolumeBase`.
pub record IsQuiet (h : Hooks) : Type 0 where
  pub quiet_unmount : (v : Volume) → destroyed_ids (h.do_unmount v).events ≡ []
  pub quiet_destroy : (v : Volume) → destroyed_ids (h.do_destroy v).events ≡ []

set_state_ids : (s : State) (v : Volume) → destroyed_ids (set_state true s v).1 ≡ []
unfolding set_state
set_state_ids s v = ground arith

set_state-id : (s : State) (v : Volume) → (fields (set_state true s v).0).id ≡ (fields v).id
unfolding set_state
set_state-id s v = refl

set_state-silent :
    (s : State) (v : Volume) → (fields (set_state true s v).0).silent ≡ (fields v).silent
unfolding set_state
set_state-silent s v = refl

module _ (h : Hooks) (laws : HookLaws h) (quiet : IsQuiet h) where
  close_ids :
      (v : Volume) (es : List Event) → destroyed_ids (close true h v es).events ≡ destroyed_ids es
  unfolding close
  close_ids v es = simp (destroyed_ids-append, set_state_ids, quiet.quiet_unmount, append-nil)

  close-id : (v : Volume) (es : List Event) → (fields (close true h v es).volume).id ≡ (fields v).id
  unfolding close set_state
  close-id v es = (laws.unmount_keeps (node (record (fields v) { state = ejecting }) nil)).same_id

  close-silent :
      (v : Volume) (es : List Event)
      → (fields (close true h v es).volume).silent ≡ (fields v).silent
  unfolding close set_state
  close-silent v es =
      (laws.unmount_keeps (node (record (fields v) { state = ejecting }) nil)).same_silent

  retire_ids :
      (last : State) (v : Volume) (es : List Event)
      → (fields v).silent ≡ false
      → destroyed_ids (retire true h last v es).events ≡ destroyed_ids es ++ ((fields v).id ∷ [])
  unfolding retire
  retire_ids last v es a =
      simp (
        destroyed_ids-append, set_state_ids, quiet.quiet_destroy, set_state-silent, set_state-id, a,
      )

  destruction_ids :
      (v : Volume) (es : List Event)
      → IsSound v
      → (fields v).silent ≡ false
      → destroyed_ids es ≡ post_order_all (stacked v)
      → destroyed_ids (destruction true h laws v es).events
        ≡ post_order_all (stacked v) ++ ((fields v).id ∷ [])
  unfolding post_order
  destruction_ids v es s a e = elim (Bool-cases (is_mounted (fields v).state)) [
    | inl m ↦
        let closed = close true h v es in
        rw m (
          retire_ids bad_removal closed.volume closed.events (close-silent v es ∙ a)
          ∙ rw (close_ids v es, close-id v es, e))
    | inr n ↦
        let alone : stacked v ≡ nil = ground (arith, IsSound-parts v s) in
        rw (n, alone) (retire_ids removed v [] a)
  ]

  mutual
    unfolding destroy then_events post_order IsSound IsAudible

    announces :
        (v : Volume)
        → IsSound v
        → (fields v).created ≡ true
        → IsAudible v
        → (o : Outcome) × (destroy true h v ≡ some o) × (destroyed_ids o.events ≡ post_order v)
    announces (node f vs) s c a =
        let (es, e, ids) = announces_all vs s.3 a.1 in
        (
          destruction true h laws (node f vs) es,
          rw (e, destroy) (destroy_with_created true h laws (node f vs) es c),
          destruction_ids (node f vs) es s a.0 ids,
        )

    announces_all :
        (vs : Volumes)
        → AreSound vs
        → AreAudible vs
        → (es : List Event) × (destroy_all true h vs ≡ some es)
          × (destroyed_ids es ≡ post_order_all vs)
    announces_all nil s a = ([], refl, refl)
    announces_all (cons v vs) s a =
        let (o, e, ids) = announces v s.1 s.0 a.0 in
        let (fs, f, ids') = announces_all vs s.2 a.1 in
        (
          o.events ++ fs,
          rw (e, f, destroy, then_events),
          rw (destroyed_ids-append o.events fs, ids, ids'),
        )

  -- The destruction of a created stack of volumes at rest, none of them silent, announces every
  -- volume of the stack exactly once, each one behind the volumes on top of it.
  pub destroy_announces_stack :
      (v : Volume)
      → IsSound v
      → (fields v).created ≡ true
      → IsAudible v
      → (o : Outcome) × (destroy true h v ≡ some o) × (destroyed_ids o.events ≡ post_order v)
  destroy_announces_stack v s c a = announces v s c a
