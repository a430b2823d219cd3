-- ===== src/Keys/Regeneration.antt =====
-- KeyUtil.cpp: `retrieveOrGenerateKey` called twice.
use platform_system_vold.Base.{
  ◌≡◌, refl, ap, ◌∙◌, Bool, true, false, not, Option, none, some, if◌then◌else◌, ◌==◌, ◌||◌, ◌&&◌,
  arith, Text, text_eq, Bool-cases, Option-cases, inl, inr, ℕ, suc, [],
}
use platform_system_vold.Keys.Act.{◌>>=◌, pure, reads, require, finds, succeeds, bind-some}
use platform_system_vold.Keys.World.{System, World, KeyAuthentication}
use platform_system_vold.Keys.Calls.{
  call, dir_at, path_exists, read_file_to_string, read_random_bytes,
}
use platform_system_vold.Keys.Upgrades.{connects}
use platform_system_vold.Keys.Storage.{
  retrieve_key, store_key_atomically, generate_wrapped_storage_key,
}
use platform_system_vold.Keys.Install.{
  KeyGeneration, generate_storage_key, retrieve_or_generate_key, fscrypt_max_key_size,
}
use platform_system_vold.Keys.Streams.{healthy, later, Passes}
use platform_system_vold.Keys.Sealing.{IsSealing}
use platform_system_vold.Keys.Wrapping.{IsKeystore}
use platform_system_vold.Keys.RoundTrip.{store_key_atomically-retrieve_key}

-- A key can be generated.
abbrev pub can_generate : KeyGeneration → Bool
can_generate gen =
    gen.allow_gen && (not gen.use_hw_wrapped_key || gen.keysize == fscrypt_max_key_size)

module _ (sys : System) (key_path : Text) (auth : KeyAuthentication) where
  -- Only a directory that is there has a key to retrieve.
  retrieved_exists :
      (w : World) (key : Text)
      → (retrieve_key (healthy sys) key_path auth w).0 ≡ some key
      → path_exists sys key_path w ≡ true
  unfolding retrieve_key read_file_to_string call ◌>>=◌ finds require
  retrieved_exists w key h = elim (Option-cases (dir_at sys key_path w)) [
    | inl e ↦ cc (rw e at h)
    | inr (d, e) ↦ rw e refl
  ]

  generates :
      (gen : KeyGeneration) (w : World)
      → can_generate gen ≡ true
      → (key : Text) × Passes (generate_storage_key (healthy sys) gen) w key
  unfolding generate_storage_key generate_wrapped_storage_key read_random_bytes connects succeeds
      call ◌>>=◌ reads pure require
  generates gen w can = elim (Bool-cases gen.use_hw_wrapped_key) [
    | inl e ↦
        let allowed : gen.allow_gen ≡ true = ground arith in
        let sized : (gen.keysize == 64) ≡ true = ground arith in
        (sys.generated_storage_key (suc w.clock), (suc (suc w.clock), rw (allowed, e, sized) refl))
    | inr e ↦
        let allowed : gen.allow_gen ≡ true = ground arith in
        (sys.random w.clock gen.keysize, (suc w.clock, rw (allowed, e) refl))
  ]

  generated_and_stored :
      (tmp_path : Text) (gen : KeyGeneration) (w : World) (key : Text) (n : ℕ)
      → gen.allow_gen ≡ true
      → dir_at sys key_path w ≡ none
      → generate_storage_key (healthy sys) gen w ≡ (some key, later n w)
      → (store_key_atomically (healthy sys) key_path tmp_path auth key (later n w)).0 ≡ some tt
      → retrieve_or_generate_key (healthy sys) key_path tmp_path auth gen w
        ≡ (some key, (store_key_atomically (healthy sys) key_path tmp_path auth key (later n w)).1)
  unfolding retrieve_or_generate_key ◌>>=◌ reads require pure
  generated_and_stored tmp_path gen w key n allowed absent generated stored =
      let after = (store_key_atomically (healthy sys) key_path tmp_path auth key (later n w)).1 in
      rw absent (
        bind-some (require gen.allow_gen) _ w
          (ap (λ (b : Bool). (if b then some tt else none, w)) allowed)
        ∙ bind-some (generate_storage_key (healthy sys) gen) _ w generated
        ∙ bind-some (store_key_atomically (healthy sys) key_path tmp_path auth key) (λ _. pure key)
            (later n w) (ap (λ (r : Option (Unit {0})). (r, after)) stored))

  found_again :
      (tmp_path : Text) (gen : KeyGeneration) (w : World) (key : Text)
      → (retrieve_key (healthy sys) key_path auth w).0 ≡ some key
      → (retrieve_or_generate_key (healthy sys) key_path tmp_path auth gen w).0 ≡ some key
  unfolding retrieve_or_generate_key ◌>>=◌ reads
  found_again tmp_path gen w key h = rw (retrieved_exists w key h) h

-- Where no call fails, Keystore and the cryptographic library open what they sealed, Keystore asks for
-- no upgrade of a key that it has generated itself and takes its input in parts of up to 32 KiB,
-- neither name is in use, the names are those of two directories, no upgrade is pending and a key can
-- be generated: the call generates a key, and the same call afterwards, whatever it may generate, finds that key.
pub retrieve_or_generate_key_again :
    (sys : System) (key_path tmp_path : Text) (auth : KeyAuthentication) (gen gen' : KeyGeneration)
    (w : World)
    → IsSealing sys
    → IsKeystore sys
    → text_eq (sys.canonical key_path) (sys.canonical tmp_path) ≡ false
    → dir_at sys key_path w ≡ none
    → dir_at sys tmp_path w ≡ none
    → w.key_dirs_to_commit ≡ []
    → can_generate gen ≡ true
    → let first = retrieve_or_generate_key (healthy sys) key_path tmp_path auth gen w in
      (key : Text) × (first.0 ≡ some key)
      × ((retrieve_or_generate_key (healthy sys) key_path tmp_path auth gen' first.1).0 ≡ some key)
retrieve_or_generate_key_again sys key_path tmp_path auth gen gen' w sealing keystore apart absent
      vacant idle can =
    let (key, passes) = generates sys key_path auth gen w can in
    let (n, generated) = passes in
    let (stored, retrieved) =
      store_key_atomically-retrieve_key sys key_path tmp_path auth key (later n w) sealing keystore
        apart absent vacant idle in
    let allowed : gen.allow_gen ≡ true = ground arith in
    let done =
      generated_and_stored sys key_path auth tmp_path gen w key n allowed absent generated stored in
    let t = (store_key_atomically (healthy sys) key_path tmp_path auth key (later n w)).1 in
    (
      key,
      ap (λ (x : Option Text × World). x.0) done,
      ap
            (λ (x : Option Text × World).
              (retrieve_or_generate_key (healthy sys) key_path tmp_path auth gen' x.1).0)
            done
          ∙ found_again sys key_path auth tmp_path gen' t key retrieved,
    )
