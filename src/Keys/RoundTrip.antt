-- ===== src/Keys/RoundTrip.antt =====
-- KeyStorage.cpp: `storeKeyAtomically` and then `retrieveKey`.
use mathlib.Core.Path.{subst}
use platform_system_vold.Base.{
  ◌≡◌, refl, sym, ap, ◌∙◌, false, [], ◌∷◌, ◌++◌, Option, none, some, arith, Text, text_eq, ℕ, suc,
}
use platform_system_vold.Keys.Act.{Act, ◌>>=◌, ◌>>◌, pure, reads, require}
use platform_system_vold.Keys.World.{System, World, KeyAuthentication, StorageBindingInfo, Files}
use platform_system_vold.Keys.Upgrades.{rename_key_dir}
use platform_system_vold.Keys.Calls.{call, dir_at, fsync_parent_directory}
use platform_system_vold.Keys.Storage.{
  hash_with_prefix, prefix_secdiscardable, bound_app_id, store_key, store_key_atomically,
  retrieve_key,
}
use platform_system_vold.Keys.Pending.Lists.{text_eq_sym}
use platform_system_vold.Keys.Streams.{healthy}
use platform_system_vold.Keys.Sealing.{IsSealing}
use platform_system_vold.Keys.Contents.{Goes, Goes-bind, Holds, Passes-holding, rename_holding}
use platform_system_vold.Keys.Wrapping.{IsCurrent, IsKeystore}
use platform_system_vold.Keys.Stored.Sealed.{store_sealed, retrieve_sealed, sealed_files}
use platform_system_vold.Keys.Stored.Wrapped.{store_wrapped, retrieve_wrapped, wrapped_files, id_of}
use platform_system_vold.Keys.Binding.{bound_app_id_twice}

abbrev Round : System → (key_path tmp_path : Text) → KeyAuthentication → Text → World → Type 0
Round sys key_path tmp_path auth key w =
    let stored = store_key_atomically (healthy sys) key_path tmp_path auth key w in
    (stored.0 ≡ some tt) × ((retrieve_key (healthy sys) key_path auth stored.1).0 ≡ some key)

module _ (sys : System) (key_path tmp_path : Text)
    (apart : text_eq (sys.canonical key_path) (sys.canonical tmp_path) ≡ false) where
  abbrev moves : Act World (Unit {0})
  moves = do
    rename_key_dir (healthy sys) tmp_path key_path
    fsync_parent_directory (healthy sys) key_path

  -- Neither name is in use.
  starts :
      (auth : KeyAuthentication) (key : Text) (w : World)
      → dir_at sys key_path w ≡ none
      → dir_at sys tmp_path w ≡ none
      → store_key_atomically (healthy sys) key_path tmp_path auth key w
        ≡ (store_key (healthy sys) tmp_path auth key >>= λ _. moves) w
  unfolding store_key_atomically ◌>>=◌ reads require pure
  starts auth key w fresh vacant = rw (fresh, vacant) refl

  moved_holding :
      {files : Files} {info : StorageBindingInfo} (w : World)
      → Holds sys tmp_path key_path files info w
      → Goes moves w tt (Holds sys key_path tmp_path files info)
  unfolding fsync_parent_directory call require ◌>>=◌
  moved_holding w h =
      Goes-bind (rename_key_dir (healthy sys) tmp_path key_path)
        (λ _. fsync_parent_directory (healthy sys) key_path)
        (rename_holding sys tmp_path key_path apart w h)
        λ t ht.
          Passes-holding sys key_path tmp_path t ht (fsync_parent_directory (healthy sys) key_path)
            tt (suc (suc t.clock), refl)

  -- What is stored is moved, and then retrieved.
  stored_and_moved :
      {Q R : World → Type 0} (auth : KeyAuthentication) (key : Text) (w : World)
      → dir_at sys key_path w ≡ none
      → dir_at sys tmp_path w ≡ none
      → Goes (store_key (healthy sys) tmp_path auth key) w tt Q
      → ((t : World) → Q t → Goes moves t tt R)
      → ((t : World) → R t → (retrieve_key (healthy sys) key_path auth t).0 ≡ some key)
      → let stored = store_key_atomically (healthy sys) key_path tmp_path auth key w in
        (stored.0 ≡ some tt) × ((retrieve_key (healthy sys) key_path auth stored.1).0 ≡ some key)
  stored_and_moved auth key w fresh vacant stores moved retrieved =
      let (t, e, r) =
        Goes-bind (store_key (healthy sys) tmp_path auth key) (λ _. moves) stores moved in
      let done = starts auth key w fresh vacant ∙ e in
      (
        ap (λ (x : Option (Unit {0}) × World). x.0) done,
        ap (λ (x : Option (Unit {0}) × World). (retrieve_key (healthy sys) key_path auth x.1).0)
              done
            ∙ retrieved t r,
      )

  back : text_eq (sys.canonical tmp_path) (sys.canonical key_path) ≡ false
  back = ground (arith, text_eq_sym (sys.canonical tmp_path) (sys.canonical key_path))

  -- Where Keystore wraps the key.
  wrapped-Round :
      (keystore : IsKeystore sys) (key : Text) (w : World)
      → dir_at sys key_path w ≡ none
      → dir_at sys tmp_path w ≡ none
      → w.key_dirs_to_commit ≡ []
      → Round sys key_path tmp_path (record { secret = [] }) key w
  wrapped-Round keystore key w fresh vacant idle =
      let info = w.storage_binding_info in
      stored_and_moved
        {R = λ t.
          (bytes : Text) × (blob : Text) × (n : ℕ) × IsCurrent sys blob
          × Holds sys key_path tmp_path
              (wrapped_files sys keystore key_path tmp_path back key bytes blob
                (id_of sys keystore key_path tmp_path back key bytes info).0 n)
              (id_of sys keystore key_path tmp_path back key bytes info).1 t}
        (record { secret = [] }) key w fresh vacant
        (store_wrapped sys keystore tmp_path key_path apart key w vacant fresh idle)
        (λ t q.
          let (bytes, blob, n, current, h) = q in
          let (u, e, hu) = moved_holding t h in (u, e, (bytes, blob, n, current, hu)))
        λ t r.
          let (bytes, blob, n, current, h) = r in
          let hash = hash_with_prefix (healthy sys) prefix_secdiscardable bytes in
          let bound : StorageBindingInfo = (bound_app_id (hash ++ []) info).1 in
          let same = sym (bound_app_id_twice (hash ++ []) info) in
          let held =
            subst
              (λ (id : Text).
                Holds sys key_path tmp_path
                  (wrapped_files sys keystore key_path tmp_path back key bytes blob id n) bound t)
              same h in
          let (u, e, hu) =
            retrieve_wrapped sys keystore key_path tmp_path back key bytes blob bound n t current
              held in
          ap (λ (x : Option Text × World). x.0) e

  -- Where a secret wraps the key.
  sealed-Round :
      (sealing : IsSealing sys) (c : ℕ) (s key : Text) (w : World)
      → dir_at sys key_path w ≡ none
      → dir_at sys tmp_path w ≡ none
      → w.key_dirs_to_commit ≡ []
      → Round sys key_path tmp_path (record { secret = c ∷ s }) key w
  sealed-Round sealing c s key w fresh vacant idle =
      let info = w.storage_binding_info in
      stored_and_moved
        {R = λ t.
          (n : ℕ) × Holds sys key_path tmp_path
            (sealed_files sys sealing key_path tmp_path back c s key (bound_app_id (c ∷ s) info).0
              n)
            (bound_app_id (c ∷ s) info).1 t}
        (record { secret = c ∷ s }) key w fresh vacant
        (store_sealed sys sealing tmp_path key_path apart c s key w vacant fresh idle)
        (λ t q. let (n, h) = q in let (u, e, hu) = moved_holding t h in (u, e, (n, hu)))
        λ t r.
          let (n, h) = r in
          let bound : StorageBindingInfo = (bound_app_id (c ∷ s) info).1 in
          let held =
            subst
              (λ (id : Text).
                Holds sys key_path tmp_path
                  (sealed_files sys sealing key_path tmp_path back c s key id n) bound t)
              (sym (bound_app_id_twice (c ∷ s) info)) h in
          let (u, e, hu) =
            retrieve_sealed sys sealing key_path tmp_path back c s key bound n t held in
          ap (λ (x : Option Text × World). x.0) e

-- Where no call fails, Keystore and the cryptographic library open what they sealed, Keystore asks for
-- no upgrade of a key that it has generated itself and takes its input in parts of up to 32 KiB,
-- neither name is in use, the names are those of two directories and no upgrade is pending: the key
-- is stored, and what is retrieved with the same authentication, Keystore's or a secret, is the key.
pub store_key_atomically-retrieve_key :
    (sys : System) (key_path tmp_path : Text) (auth : KeyAuthentication) (key : Text) (w : World)
    → IsSealing sys
    → IsKeystore sys
    → text_eq (sys.canonical key_path) (sys.canonical tmp_path) ≡ false
    → dir_at sys key_path w ≡ none
    → dir_at sys tmp_path w ≡ none
    → w.key_dirs_to_commit ≡ []
    → let stored = store_key_atomically (healthy sys) key_path tmp_path auth key w in
      (stored.0 ≡ some tt) × ((retrieve_key (healthy sys) key_path auth stored.1).0 ≡ some key)
store_key_atomically-retrieve_key sys key_path tmp_path auth key w sealing keystore apart fresh
      vacant idle =
    elim auth.secret
      as (λ (secret : Text). Round sys key_path tmp_path (record { secret = secret }) key w) [
        | [] ↦ wrapped-Round sys key_path tmp_path apart keystore key w fresh vacant idle
        | c ∷ s ↦ sealed-Round sys key_path tmp_path apart sealing c s key w fresh vacant idle
      ]
