-- ===== src/UserKeys/Deferral.antt =====
-- FsCrypt.cpp: the CE key of a new user is stored while a checkpoint is needed.
use platform_system_vold.Base.{
  none, some, [], ◌∷◌, text_eq_refl, Option, ◌≡◌, refl, sym, ap, ◌∙◌, inl, inr, Bool, true, false,
  List, some, Text, text_eq, text_eq→eq, Bool-cases, ℕ, any,
}
use platform_system_vold.Keys.Act.{checked, modifies, Act, ◌>>=◌, pure, reads, require, is_some}
use platform_system_vold.Keys.Keeps.{
  Keeps, Post, Ends, Ends-bind, Ends-kept, Keeps-modifies, keeps_rules,
}
use platform_system_vold.Checkpoint.Control.Counter.{needs_checkpoint}
use platform_system_vold.Keys.Quiet.{
  needed, IsOfFiles, call_quiet, fsync_parent_directory_quiet, cp_needs_checkpoint_quiet,
}
use platform_system_vold.Keys.World.{Dir, System, World, KeyAuthentication, uses_keystore}
use platform_system_vold.Keys.Calls.{dir_at, path_exists, can_move, rename_now, rename_dir}
use platform_system_vold.Keys.Upgrades.{rename_key_dir, cp_needs_checkpoint}
use platform_system_vold.Keys.Storage.{destroy_key, store_key, store_key_atomically}
use platform_system_vold.UserKeys.Paths.{get_ce_key_new_path, text_lt, user_key_temp}
use platform_system_vold.UserKeys.Away.{IsAway, destroy_key_away, store_key_away}
use platform_system_vold.UserKeys.Users.{Fbe, Users, find_user, find_path, assign_path, on_disk}
use platform_system_vold.UserKeys.Protection.{
  get_ce_key_directory_path, list_ce_key_paths, store_ce_key, protect,
  fscrypt_set_ce_key_protection, is_user,
}

module _ (sys : System) (old_name new_name : Text) {P : World → Type 0}
    (away : IsAway sys old_name P) (away' : IsAway sys new_name P) where
  files : IsOfFiles sys P
  files = away.of_files

  lists_away : (ps : List Text) (w : World) → P w → P (record w { key_dirs_to_commit = ps })
  lists_away = away.lists

  rename_now_away : Keeps P (rename_now sys old_name new_name)
  unfolding rename_now
  rename_now_away = record {
    kept = λ w h. elim (Bool-cases (text_eq (sys.canonical old_name) (sys.canonical new_name))) [
      | inl e ↦ rw e h
      | inr e ↦ elim (Bool-cases (can_move sys old_name new_name w)) [
        | inl e' ↦ rw (e, e') (away'.sets _ _ (away.sets _ w h))
        | inr e' ↦ rw (e, e') h
      ]
    ];
  }

  rename_key_dir_away : Keeps P (rename_key_dir sys old_name new_name)
  unfolding rename_key_dir rename_dir
  rename_key_dir_away =
      search (keeps_rules, call_quiet, files, rename_now_away, lists_away) depth 30

  destroy_old : Keeps P (destroy_key sys old_name)
  destroy_old = destroy_key_away sys old_name away

  store_old : (auth : KeyAuthentication) (key : Text) → Keeps P (store_key sys old_name auth key)
  store_old = store_key_away sys old_name away

  store_key_atomically_away :
      (auth : KeyAuthentication) (key : Text)
      → Keeps P (store_key_atomically sys new_name old_name auth key)
  unfolding store_key_atomically
  store_key_atomically_away auth key =
      search
        (
          keeps_rules, destroy_old, store_old, rename_key_dir_away, fsync_parent_directory_quiet,
          files,
        )
        depth 30

module _ (sys : System) (path : Text) (d : Dir) where
  -- The directory `d` is at the path, and a checkpoint is needed.
  abbrev IsSafe : World → Type 0
  IsSafe w = (dir_at sys path w ≡ some d) × (needed sys w ≡ true)

  IsSafe-of_files : IsOfFiles sys IsSafe
  IsSafe-of_files = record { same = λ v w e k n h. (rw (sym e) h.0, sym n ∙ h.1) }

  IsSafe-IsAway :
      (other : Text)
      → text_eq (sys.canonical path) (sys.canonical other) ≡ false
      → IsAway sys other IsSafe
  IsSafe-IsAway other apart = record {
    of_files = IsSafe-of_files;
    sets = λ c w h. (rw apart h.0, h.1);
    lists = λ ps w h. h;
  }

  refused :
      (key_path tmp_path : Text) (auth : KeyAuthentication) (key : Text) (w : World)
      → path_exists sys key_path w ≡ true
      → (store_key_atomically sys key_path tmp_path auth key w).1 ≡ w
  unfolding store_key_atomically ◌>>=◌ reads require
  refused key_path tmp_path auth key w e = rw e refl

  store_key_atomically-IsSafe :
      (key_path tmp_path : Text) (auth : KeyAuthentication) (key : Text)
      → text_eq (sys.canonical path) (sys.canonical tmp_path) ≡ false
      → Keeps IsSafe (store_key_atomically sys key_path tmp_path auth key)
  store_key_atomically-IsSafe key_path tmp_path auth key apart = record {
    kept = λ w h. elim (Bool-cases (text_eq (sys.canonical path) (sys.canonical key_path))) [
      | inl one ↦
          let same = text_eq→eq (sys.canonical path) (sys.canonical key_path) one in
          let there : path_exists sys key_path w ≡ true = ap is_some (ap w.dirs (sym same) ∙ h.0) in
          rw (refused key_path tmp_path auth key w there) h
      | inr other ↦
          (store_key_atomically_away sys tmp_path key_path (IsSafe-IsAway tmp_path apart)
              (IsSafe-IsAway key_path other) auth key).kept
            w h
    ];
  }

find_path-assign_path :
    (path q : Text) (m : List (Text × Text)) → find_path path (assign_path path q m) ≡ some q
unfolding assign_path
find_path-assign_path path q [] = rw (text_eq_refl path) refl
find_path-assign_path path q ((p, r) ∷ m) = elim (Bool-cases (text_eq p path)) [
  | inl e ↦ rw (e, text_eq_refl path) refl
  | inr e ↦ elim (Bool-cases (text_lt path p)) [
    | inl e' ↦ rw (e, e', text_eq_refl path) refl
    | inr e' ↦ rw (e, e', e) (find_path-assign_path path q m)
  ]
]

weaker-Post :
    {S A : Type 0} {Q R Q' R' : S → Type 0} (x : Option A × S)
    → ((s : S) → Q s → Q' s)
    → ((s : S) → R s → R' s)
    → Post Q R x
    → Post Q' R' x
weaker-Post (some a, s) f g h = f s h
weaker-Post (none, s) f g h = g s h

-- The path that a new key of the user takes.
abbrev pub new_ce_key_path : Fbe → (user_id : ℕ) → Users → Option Text
new_ce_key_path fbe user_id u =
    let directory_path = get_ce_key_directory_path user_id in
    get_ce_key_new_path directory_path (list_ce_key_paths fbe directory_path u.world)

module _ {S A B : Type 0} (Q R : S → Type 0) where
  reads-Post :
      (f : S → A) (g : A → Act S B) (s : S) → Post Q R (g (f s) s) → Post Q R ((reads f >>= g) s)
  unfolding ◌>>=◌ reads
  reads-Post f g s h = h

  checked-Post :
      (o : Option A) (g : A → Act S B) (s : S)
      → R s
      → ((a : A) → o ≡ some a → Post Q R (g a s))
      → Post Q R ((checked o >>= g) s)
  unfolding ◌>>=◌ checked
  checked-Post none g s h k = h
  checked-Post (some a) g s h k = k a refl

module _ {P : World → Type 0} {A : Type 0} where
  -- The predicate of the world that a call keeps.
  Keeps-on_disk : (m : Act World A) → Keeps P m → Keeps (λ (u : Users). P u.world) (on_disk m)
  unfolding on_disk
  Keeps-on_disk m km = record { kept = λ u h. km.kept u.world h }

module _ (fbe : Fbe) (path : Text) (d : Dir) where
  abbrev AllSafe : Users → Type 0
  AllSafe u = IsSafe fbe.sys path d u.world

  store_safe :
      (key_path : Text) (auth : KeyAuthentication) (key : Text)
      → text_eq (fbe.sys.canonical path) (fbe.sys.canonical user_key_temp) ≡ false
      → Keeps AllSafe (on_disk (store_key_atomically fbe.sys key_path user_key_temp auth key))
  store_safe key_path auth key apart =
      Keeps-on_disk _
        (store_key_atomically-IsSafe fbe.sys path d key_path user_key_temp auth key apart)

  asked_safe : Keeps AllSafe (on_disk (cp_needs_checkpoint fbe.sys))
  asked_safe = Keeps-on_disk _ (cp_needs_checkpoint_quiet fbe.sys (IsSafe-of_files fbe.sys path d))

  -- The fixation of the directory is deferred, and of the key at this path of it.
  abbrev IsDeferred : Text → Option Text → Users → Type 0
  IsDeferred directory_path target u =
      AllSafe u × (find_path directory_path u.deferred_fixations ≡ target)

  -- What follows is done as for a checkpoint that is needed.
  needed-Ends :
      {A : Type 0} {Q : Users → Type 0} (f : Bool → Act Users A)
      → Ends AllSafe Q AllSafe (f true)
      → Ends AllSafe Q AllSafe (on_disk (cp_needs_checkpoint fbe.sys) >>= f)
  unfolding ◌>>=◌ on_disk cp_needs_checkpoint
  needed-Ends f ef = record { ends = λ u h. let t = asked_safe.kept u h in rw h.1 (ef.ends _ t) }

  assigned-Ends :
      (directory_path ce_key_path : Text) (target : Option Text)
      → target ≡ some ce_key_path
      → Ends AllSafe (IsDeferred directory_path target) AllSafe (
          modifies (λ u. record u {
            deferred_fixations = assign_path directory_path ce_key_path u.deferred_fixations;
          }))
  unfolding modifies
  assigned-Ends directory_path ce_key_path target e = record {
    ends =
        λ u h. (h, find_path-assign_path directory_path ce_key_path u.deferred_fixations ∙ sym e);
  }

  store_ce_key-Post :
      (user_id : ℕ) (auth : KeyAuthentication) (ce_key : Text) (u : Users)
      → text_eq (fbe.sys.canonical path) (fbe.sys.canonical user_key_temp) ≡ false
      → AllSafe u
      → Post
          (IsDeferred (get_ce_key_directory_path user_id) (new_ce_key_path fbe user_id u))
          AllSafe
          (store_ce_key fbe user_id auth ce_key u)
  unfolding store_ce_key
  store_ce_key-Post user_id auth ce_key u apart h =
      let same = λ (v : Users) (h : AllSafe v). h in
      let directory_path = get_ce_key_directory_path user_id in
      let target = new_ce_key_path fbe user_id u in
      reads-Post (IsDeferred directory_path target) AllSafe _ _ u (
        checked-Post (IsDeferred directory_path target) AllSafe target _ u h λ ce_key_path e.
          (Ends-bind _ _ (Ends-kept _ (store_safe ce_key_path auth ce_key apart) same) λ _.
              needed-Ends _ (
                Ends-bind _ _ (assigned-Ends directory_path ce_key_path target e)
                  λ _. Ends-kept _ (Keeps-modifies _ (λ v h. h)) (λ v h. h.0))).ends
            u h)

-- The directory `d` is at the path, and after a success the fixation of the user's key is deferred, to
-- the path that a new key had before the call.
abbrev pub Defers :
    Fbe → (user_id : ℕ) (path : Text) → Dir → (before : Users) → Option (Unit {0}) × Users → Type 0
Defers fbe user_id path d before =
    Post
      (λ t.
        (dir_at fbe.sys path t.world ≡ some d)
        × (find_path (get_ce_key_directory_path user_id) t.deferred_fixations
            ≡ new_ce_key_path fbe user_id before))
      (λ t. dir_at fbe.sys path t.world ≡ some d)

-- While a checkpoint is needed, and whatever fails: when the CE key of a new user who is not
-- ephemeral is stored, each directory of a key stays as it is, if its path does not lead to the
-- temporary directory, and if the call succeeds, the fixation of the user's key is deferred, and the
-- key to be fixed is the one at the path that `get_ce_key_new_path` chose for it.
pub fscrypt_set_ce_key_protection-Defers :
    (fbe : Fbe) (user_id : ℕ) (secret ce_key path : Text) (d : Dir) (u : Users)
    → fbe.is_fbe_enabled ≡ true
    → (needs_checkpoint fbe.sys.cp_env u.world.cp).0 ≡ true
    → any (is_user user_id) u.ephemeral_users ≡ false
    → find_user user_id u.new_ce_keys ≡ some ce_key
    → text_eq (fbe.sys.canonical path) (fbe.sys.canonical user_key_temp) ≡ false
    → dir_at fbe.sys path u.world ≡ some d
    → Defers fbe user_id path d u (fscrypt_set_ce_key_protection fbe user_id secret u)
unfolding fscrypt_set_ce_key_protection protect ◌>>=◌ reads require pure store_ce_key
    list_ce_key_paths
fscrypt_set_ce_key_protection-Defers fbe user_id secret ce_key path d u on needs stays found apart
      there =
    let auth : KeyAuthentication = record { secret = secret } in
    elim (Bool-cases (uses_keystore auth)) [
      | inl e ↦ rw (on, e) there
      | inr e ↦
          let target = new_ce_key_path fbe user_id u in
          let deferred : Defers fbe user_id path d u (store_ce_key fbe user_id auth ce_key u) =
            weaker-Post {Q = IsDeferred fbe path d (get_ce_key_directory_path user_id) target}
              {R = AllSafe fbe path d} _ (λ t h. (h.0.0, h.1)) (λ t h. h.0)
              (store_ce_key-Post fbe path d user_id auth ce_key u apart (there, needs)) in
          rw (on, e, stays, found) deferred
    ]
