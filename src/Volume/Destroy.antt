-- ===== src/Volume/Destroy.antt =====
-- The destruction of a volume and of everything that is stacked on it.
use platform_system_vold.Base.{
  ◌≡◌, refl, Bool, true, false, List, [], ◌++◌, some, arith, if◌then◌else◌,
}
use platform_system_vold.Volume.Types.{
  State, unmounted, ejecting, mounted, removed, bad_removal, Event, Volume, node, Volumes, nil,
  cons, fields, stacked, Outcome, Hooks,
}
use platform_system_vold.Volume.Laws.{IsSound, AreSound, HookLaws, IsSound-parts}
use platform_system_vold.Volume.{
  is_mounted, set_state, close, retire, destroy_with, then_events, destroy, destroy_all, unmount,
}

module _ (has_listener : Bool) (h : Hooks) (laws : HookLaws h) where
  -- The outcome of a destruction that does not abort, given the events of the stacked volumes'.
  abbrev pub destruction : Volume → List Event → Outcome
  destruction v above =
      if is_mounted (fields v).state
      then retire has_listener h bad_removal (close has_listener h v above).volume
          (close has_listener h v above).events
      else retire has_listener h removed v []

  pub destroy_with_created :
      (v : Volume) (es : List Event)
      → (fields v).created ≡ true
      → destroy_with has_listener h v (some es) ≡ some (destruction v es)
  unfolding destroy_with
  destroy_with_created v es c = ground arith

  mutual
    unfolding destroy then_events IsSound

    destroys :
        (v : Volume)
        → IsSound v
        → (fields v).created ≡ true
        → (es : List Event) × (destroy_all has_listener h (stacked v) ≡ some es)
          × (destroy has_listener h v ≡ some (destruction v es))
    destroys (node f vs) s c =
        let (es, e) = destroys_all vs s.3 in
        (es, e, rw (e, destroy) (destroy_with_created (node f vs) es c))

    destroys_all :
        (vs : Volumes) → AreSound vs → (es : List Event) × (destroy_all has_listener h vs ≡ some es)
    destroys_all nil s = ([], refl)
    destroys_all (cons v vs) s =
        let (es, e0, e) = destroys v s.1 s.0 in
        let (fs, f) = destroys_all vs s.2 in
        ((destruction v es).events ++ fs, rw (e, f, destroy, then_events))

  pub close_lem :
      (v : Volume) (es : List Event)
      → let w = (close has_listener h v es).volume in
        ((fields w).state ≡ unmounted)
        × ((fields w).created ≡ (fields v).created)
        × (stacked w ≡ nil)
  unfolding close set_state
  close_lem v es =
      let k = laws.unmount_keeps (node (record (fields v) { state = ejecting }) nil) in
      (refl, k.same_created, k.same_stacked)

  retire_lem :
      (last : State) (v : Volume) (es : List Event)
      → let w = (retire has_listener h last v es).volume in
        ((fields w).state ≡ last) × ((fields w).created ≡ false) × (stacked w ≡ stacked v)
  unfolding retire set_state
  retire_lem last v es =
      let k = laws.destroy_keeps (node (record (fields v) { state = last }) (stacked v)) in
      (k.same_state, refl, k.same_stacked)

  destruction_lem :
      (v : Volume) (es : List Event)
      → IsSound v
      → let w = (destruction v es).volume in
        ((fields w).created ≡ false)
        × ((fields w).state ≡ (if is_mounted (fields v).state then bad_removal else removed))
        × (stacked w ≡ nil)
  destruction_lem v es s =
      let closed = (close has_listener h v es) in
      ground (
        arith,
        retire_lem bad_removal closed.volume closed.events,
        close_lem v es,
        retire_lem removed v [],
        IsSound-parts v s,
      )

  -- The destruction of a created volume at rest never fails a `CHECK`. It leaves the volume not
  -- created, with nothing stacked on it, in `kBadRemoval` if it was mounted and in `kRemoved` if not.
  pub destroy_total :
      (v : Volume)
      → IsSound v
      → (fields v).created ≡ true
      → (o : Outcome) × (destroy has_listener h v ≡ some o)
        × ((fields o.volume).created ≡ false)
        × ((fields o.volume).state ≡ (if is_mounted (fields v).state then bad_removal else removed))
        × (stacked o.volume ≡ nil)
  destroy_total v s c =
      let (es, _, e) = destroys v s c in
      let (created, state, alone) = destruction_lem v es s in
      (destruction v es, e, created, state, alone)

  pub unmount_total :
      (v : Volume)
      → IsSound v
      → (fields v).state ≡ mounted
      → (es : List Event) × (unmount has_listener h v ≡ some (close has_listener h v es))
  unfolding unmount
  unmount_total v s m =
      let parts = IsSound-parts v s in
      let (es, e) = destroys_all (stacked v) parts.3 in (es, rw (m, e))
