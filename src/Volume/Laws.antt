-- ===== src/Volume/Laws.antt =====
-- What `VolumeBase` relies on of the classes that derive from it, and the invariant of a volume
-- between two operations.
use platform_system_vold.Base.{◌≡◌, ◌⊎◌, Bool, true, false, Text}
use platform_system_vold.Volume.Types.{
  State, unmounted, mounted, unmountable, removed, bad_removal, Volume, node, Volumes, nil, cons,
  fields, stacked, Hooks,
}

-- The state between two operations: no mount, format or unmount is under way.
abbrev pub is_at_rest : State → Bool
is_at_rest unmounted = true
is_at_rest mounted = true
is_at_rest unmountable = true
is_at_rest removed = true
is_at_rest bad_removal = true
is_at_rest _ = false

-- The state and the flag are private to `VolumeBase`, so a hook cannot change them; the id and the
-- silence have setters that refuse on a created volume; and no hook but `doPostMount` stacks volumes.
pub record Keeps (v w : Volume) : Type 0 where
  pub same_created : (fields w).created ≡ (fields v).created
  pub same_state : (fields w).state ≡ (fields v).state
  pub same_stacked : stacked w ≡ stacked v
  pub same_id : (fields w).id ≡ (fields v).id
  pub same_silent : (fields w).silent ≡ (fields v).silent

-- A volume at rest: only a created volume is mounted, only a mounted one has others on top, and
-- these are created and at rest themselves.
unfoldable mutual
  pub IsSound : Volume → Type 0
  IsSound (node f vs) =
      (is_at_rest f.state ≡ true)
      × (f.state ≡ mounted → f.created ≡ true)
      × ((f.state ≡ mounted) ⊎ (vs ≡ nil))
      × AreSound vs

  pub AreSound : Volumes → Type 0
  AreSound nil = Unit {0}
  AreSound (cons v vs) = ((fields v).created ≡ true) × IsSound v × AreSound vs

pub record HookLaws (h : Hooks) : Type 0 where
  pub create_keeps : (v : Volume) → Keeps v (h.do_create v).volume
  pub destroy_keeps : (v : Volume) → Keeps v (h.do_destroy v).volume
  pub mount_keeps : (v : Volume) → Keeps v (h.do_mount v).volume
  pub unmount_keeps : (v : Volume) → Keeps v (h.do_unmount v).volume
  pub format_keeps : (t : Text) (v : Volume) → Keeps v (h.do_format t v).volume
  pub post_mount_created :
      (v : Volume) → (fields (h.do_post_mount v).0).created ≡ (fields v).created
  pub post_mount_state : (v : Volume) → (fields (h.do_post_mount v).0).state ≡ (fields v).state
  pub post_mount_sound :
      (v : Volume) → AreSound (stacked v) → AreSound (stacked (h.do_post_mount v).0)

pub IsSound-intro :
    (v : Volume)
    → is_at_rest (fields v).state ≡ true
    → ((fields v).state ≡ mounted → (fields v).created ≡ true)
    → ((fields v).state ≡ mounted) ⊎ (stacked v ≡ nil)
    → AreSound (stacked v)
    → IsSound v
unfolding IsSound
IsSound-intro (node f vs) a b c d = (a, b, c, d)

pub IsSound-parts :
    (v : Volume)
    → IsSound v
    → (is_at_rest (fields v).state ≡ true)
      × ((fields v).state ≡ mounted → (fields v).created ≡ true)
      × (((fields v).state ≡ mounted) ⊎ (stacked v ≡ nil))
      × AreSound (stacked v)
unfolding IsSound
IsSound-parts (node f vs) s = s

pub AreSound-nil : (vs : Volumes) → vs ≡ nil → AreSound vs
unfolding IsSound
AreSound-nil vs e = rw e tt
