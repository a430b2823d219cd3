-- ===== src/Keys/Sealing.antt =====
-- KeyStorage.cpp: keys wrapped and unwrapped without Keystore, by AES-GCM of the cryptographic
-- library.
use platform_system_vold.Base.{
  ℕ, suc, ◌+◌, ◌-◌, ◌≡◌, refl, sym, ap, true, [], ◌∷◌, ◌++◌, arith, length, take, drop, drop-length,
  length-append, Text, leb, ◌==◌, ==_iff,
}
use platform_system_vold.Keys.Act.{◌>>=◌, pure, reads, require}
use platform_system_vold.Keys.World.{System, World}
use platform_system_vold.Keys.Calls.{call, read_random_bytes}
use platform_system_vold.Keys.Upgrades.{gcm_nonce_bytes, gcm_mac_bytes}
use platform_system_vold.Keys.Storage.{
  wrapping_key, body_of, tag_of, encrypt_without_keystore, decrypt_without_keystore,
}
use platform_system_vold.Keys.Streams.{healthy, Passes}

-- What is relied on of the random source and of AES-GCM: the sizes, and that what was sealed opens.
pub record IsSealing (sys : System) : Type 0 where
  pub random_size : (call count : ℕ) → length (sys.random call count) ≡ count
  pub body_size : (key nonce p : Text) → length (sys.gcm_encrypt key nonce p) ≡ length p
  pub tag_size : (key nonce p : Text) → length (sys.gcm_tag key nonce p) ≡ gcm_mac_bytes
  pub opens : (key nonce p : Text) → sys.gcm_decrypt key nonce (sys.gcm_encrypt key nonce p) ≡ p
  pub verifies :
      (key nonce p : Text)
      → sys.gcm_verifies key nonce (sys.gcm_encrypt key nonce p) (sys.gcm_tag key nonce p) ≡ true

take_front : (xs ys : Text) → take (length xs) (xs ++ ys) ≡ xs
take_front [] ys = refl
take_front (x ∷ xs) ys = ap (λ (t : Text). x ∷ t) (take_front xs ys)

pub front : (n : ℕ) (xs ys : Text) → length xs ≡ n → take n (xs ++ ys) ≡ xs
front n xs ys h = rw (sym h) (take_front xs ys)

pub back : (n : ℕ) (xs ys : Text) → length xs ≡ n → drop n (xs ++ ys) ≡ ys
back n xs ys h = rw (sym h) (drop-length xs ys)

pub eq_test : (a b : ℕ) → a ≡ b → (a == b) ≡ true
eq_test a b h = ground (arith, ==_iff a b)

module _ (sys : System) (sealing : IsSealing sys) (pre_key key : Text) where
  -- What is stored for a key that is wrapped at the given time.
  abbrev nonce_at : ℕ → Text
  nonce_at n = sys.random n gcm_nonce_bytes

  abbrev sealed_body : ℕ → Text
  sealed_body n = sys.gcm_encrypt (wrapping_key (healthy sys) pre_key) (nonce_at n) key

  abbrev sealed_tag : ℕ → Text
  sealed_tag n = sys.gcm_tag (wrapping_key (healthy sys) pre_key) (nonce_at n) key

  abbrev pub sealed : ℕ → Text
  sealed n = nonce_at n ++ (sealed_body n ++ sealed_tag n)

  pub encrypt_without_keystore-sealed :
      (w : World) → Passes (encrypt_without_keystore (healthy sys) pre_key key) w (sealed w.clock)
  unfolding encrypt_without_keystore read_random_bytes call ◌>>=◌ reads pure require
  encrypt_without_keystore-sealed w =
      let size = sealing.body_size (wrapping_key (healthy sys) pre_key) (nonce_at w.clock) key in
      (
        suc (suc (suc (suc (suc (suc w.clock))))),
        rw (eq_test (length (sealed_body w.clock)) (length key) size) refl,
      )

  sealed_size : (n : ℕ) → length (sealed n) ≡ gcm_nonce_bytes + (length key + gcm_mac_bytes)
  sealed_size n =
      let k = wrapping_key (healthy sys) pre_key in
      omega (
        arith,
        length-append {0} (nonce_at n) (sealed_body n ++ sealed_tag n),
        length-append {0} (sealed_body n) (sealed_tag n),
        sealing.random_size n gcm_nonce_bytes,
        sealing.body_size k (nonce_at n) key,
        sealing.tag_size k (nonce_at n) key,
      )

  nonce_of_sealed : (n : ℕ) → take gcm_nonce_bytes (sealed n) ≡ nonce_at n
  nonce_of_sealed n =
      front gcm_nonce_bytes (nonce_at n) (sealed_body n ++ sealed_tag n)
        (sealing.random_size n gcm_nonce_bytes)

  body_of-sealed : (n : ℕ) → body_of (sealed n) ≡ sealed_body n
  body_of-sealed n =
      let size : length (sealed_body n) ≡ length (sealed n) - gcm_nonce_bytes - gcm_mac_bytes =
        omega (
          arith,
          sealed_size n,
          sealing.body_size (wrapping_key (healthy sys) pre_key) (nonce_at n) key,
        ) in
      rw
        (back gcm_nonce_bytes (nonce_at n) (sealed_body n ++ sealed_tag n)
          (sealing.random_size n gcm_nonce_bytes))
        (front (length (sealed n) - gcm_nonce_bytes - gcm_mac_bytes) (sealed_body n) (sealed_tag n)
          size)

  tag_of-sealed : (n : ℕ) → tag_of (sealed n) ≡ sealed_tag n
  tag_of-sealed n =
      let size : length (sealed_body n) ≡ length (sealed n) - gcm_nonce_bytes - gcm_mac_bytes =
        omega (
          arith,
          sealed_size n,
          sealing.body_size (wrapping_key (healthy sys) pre_key) (nonce_at n) key,
        ) in
      rw
        (back gcm_nonce_bytes (nonce_at n) (sealed_body n ++ sealed_tag n)
          (sealing.random_size n gcm_nonce_bytes))
        (back (length (sealed n) - gcm_nonce_bytes - gcm_mac_bytes) (sealed_body n) (sealed_tag n)
          size)

  pub decrypt_without_keystore-sealed :
      (n : ℕ) (w : World) → Passes (decrypt_without_keystore (healthy sys) pre_key (sealed n)) w key
  unfolding decrypt_without_keystore call ◌>>=◌ pure require
  decrypt_without_keystore-sealed n w =
      let k = wrapping_key (healthy sys) pre_key in
      let large : leb 28 (length (sealed n)) ≡ true = ground (arith, sealed_size n) in
      let size : (length key == length (sealed n) - gcm_nonce_bytes - gcm_mac_bytes) ≡ true =
        ground (arith, sealed_size n, ==_iff (length key) (length (sealed n) - 12 - 16)) in
      (
        suc (suc (suc (suc (suc w.clock)))),
        rw
            (
              large,
              nonce_of_sealed n,
              body_of-sealed n,
              tag_of-sealed n,
              sealing.opens k (nonce_at n) key,
              size,
              sealing.verifies k (nonce_at n) key,
            )
            refl,
      )
