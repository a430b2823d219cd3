-- ===== src/Keys/Wrapping.antt =====
-- KeyStorage.cpp: keys wrapped and unwrapped by Keystore while no call fails.
use platform_system_vold.Base.{
  ℕ, suc, ◌≡◌, refl, ap, ◌∙◌, Bool, true, [], ◌++◌, Option, none, some, arith, length,
  length-append, Text, leb,
}
use platform_system_vold.Keys.Act.{◌>>=◌, pure, reads, finds, require, checked}
use platform_system_vold.Keys.World.{
  keymaster_key_blob, keymaster_key_blob_upgraded, Files, Request, encrypt, decrypt, Operation,
  StorageBindingInfo, System, World,
}
use platform_system_vold.Keys.Calls.{call, read_file_to_string}
use platform_system_vold.Keys.Upgrades.{
  check_size, gcm_nonce_bytes, gcm_mac_bytes, is_key_commit_pending, delete_upgraded_key,
  keystore_begin, current_blob, keep_upgraded, begin_with, begin_keystore_op, update_completely,
  finish, encrypt_with_keystore_key, decrypt_with_keystore_key,
}
use platform_system_vold.Keys.Streams.{healthy, later, Streams, update_completely-Passes}
use platform_system_vold.Keys.Sealing.{front, back, eq_test}
use platform_system_vold.Keys.Contents.{Goes, Goes-bind, Holds, later-Holds, Passes-holding}

-- Keystore does not ask for an upgrade of the key.
abbrev pub IsCurrent : System → (blob : Text) → Type 0
IsCurrent sys blob = (n : ℕ) (r : Request) → (sys.begins n blob r).upgraded_blob ≡ none

-- What is relied on of Keystore: it does not ask for an upgrade of a key that it has generated itself,
-- as it would for one of an older version, its operations take their input in parts of up to 32 KiB,
-- and what it encrypted with a key and an application id it decrypts with them.
pub record IsKeystore (sys : System) : Type 0 where
  pub fresh :
      (m : ℕ) (rollback_resistant : Bool) (id : Text)
      → IsCurrent sys (sys.generated_key m rollback_resistant id)
  pub nonce : (n : ℕ) (blob id : Text) → Text
  pub nonce_given :
      (n : ℕ) (blob id : Text) → (sys.begins n blob (encrypt id)).out_nonce ≡ some (nonce n blob id)
  pub nonce_size : (n : ℕ) (blob id : Text) → length (nonce n blob id) ≡ gcm_nonce_bytes
  pub encrypts : (n : ℕ) (blob id : Text) → Streams (sys.begins n blob (encrypt id))
  pub mac : (n : ℕ) (blob id message : Text) → Text
  pub mac_given :
      (n : ℕ) (blob id message : Text)
      → (sys.begins n blob (encrypt id)).finish message ≡ some (mac n blob id message)
  pub mac_size : (n : ℕ) (blob id message : Text) → length (mac n blob id message) ≡ gcm_mac_bytes
  pub decrypts :
      (m n : ℕ) (blob id : Text) → Streams (sys.begins m blob (decrypt id (nonce n blob id)))
  pub opens :
      (m n : ℕ) (blob id message : Text)
      → (decrypts m n blob id).output []
          ((encrypts n blob id).output [] message ++ mac n blob id message)
        ≡ message
  pub rest : (m n : ℕ) (blob id message : Text) → Text
  pub accepts :
      (m n : ℕ) (blob id message : Text)
      → (sys.begins m blob (decrypt id (nonce n blob id))).finish
          ((encrypts n blob id).output [] message ++ mac n blob id message)
        ≡ some (rest m n blob id message)

module _ (sys : System) (keystore : IsKeystore sys) (blob id message : Text) where
  body_at : ℕ → Text
  body_at n = (keystore.encrypts n blob id).output [] message

  -- What is stored for a key that Keystore encrypts in operation `n`.
  pub wrapped_at : ℕ → Text
  unfolding body_at
  wrapped_at n = keystore.nonce n blob id ++ (body_at n ++ keystore.mac n blob id message)

module _ (sys : System) (keystore : IsKeystore sys) (dir other : Text) (files : Files)
    (info : StorageBindingInfo) (blob : Text) (current : IsCurrent sys blob)
    (has_blob : files keymaster_key_blob ≡ some blob)
    (no_upgrade : files keymaster_key_blob_upgraded ≡ none) where
  abbrev Held : World → Type 0
  Held w = Holds sys dir other files info w

  begin_holding :
      (r : Request) (w : World)
      → Held w
      → Goes (begin_keystore_op (healthy sys) dir r) w (sys.begins (suc w.clock) blob r) Held
  unfolding begin_keystore_op begin_with is_key_commit_pending current_blob delete_upgraded_key
      keep_upgraded keystore_begin read_file_to_string call ◌>>=◌ reads finds pure require
  begin_holding r w h =
      let t = later (suc (suc w.clock)) w in
      (
        t,
        rw
            (
              h.idle,
              h.now keymaster_key_blob_upgraded ∙ no_upgrade,
              h.now keymaster_key_blob ∙ has_blob,
              current (suc w.clock) r,
            )
            refl,
        later-Holds sys dir other w h (suc (suc w.clock)),
      )

  finish_holding :
      (op : Operation) (s last : Text) (w : World)
      → op.finish s ≡ some last
      → Held w
      → Goes (finish (healthy sys) op s) w last Held
  unfolding finish call ◌>>=◌ checked require
  finish_holding op s last w e h =
      Passes-holding sys dir other w h (finish (healthy sys) op s) last (suc w.clock, rw e refl)

  update_holding :
      (op : Operation) (streams : Streams op) (s : Text) (w : World)
      → Held w
      → Goes (update_completely (healthy sys) op s) w (streams.output [] s) Held
  update_holding op streams s w h =
      Passes-holding sys dir other w h (update_completely (healthy sys) op s) (streams.output [] s)
        (update_completely-Passes sys op streams s w)

  module _ (id message : Text) where
    check_nonce :
        (n : ℕ) (w : World) → check_size (keystore.nonce n blob id) gcm_nonce_bytes w ≡ (some tt, w)
    unfolding require
    check_nonce n w =
        rw (eq_test (length (keystore.nonce n blob id)) 12 (keystore.nonce_size n blob id)) refl

    check_mac :
        (n : ℕ) (w : World)
        → check_size (keystore.mac n blob id message) gcm_mac_bytes w ≡ (some tt, w)
    unfolding require
    check_mac n w =
        rw
          (eq_test (length (keystore.mac n blob id message)) 16
            (keystore.mac_size n blob id message))
          refl

    pub encrypt_holding :
        (w : World)
        → Held w
        → (n : ℕ) × Goes
            (encrypt_with_keystore_key (healthy sys) dir id message)
            w
            (wrapped_at sys keystore blob id message n)
            Held
    unfolding encrypt_with_keystore_key wrapped_at checked pure
    encrypt_holding w h =
        let n = suc w.clock in
        let op = sys.begins n blob (encrypt id) in
        (
          n,
          Goes-bind _ _ (begin_holding (encrypt id) w h) λ t ht.
              Goes-bind _ _
                (t, ap (λ (o : Option Text). (o, t)) (keystore.nonce_given n blob id), ht)
                λ t ht.
                  Goes-bind _ _ (t, check_nonce n t, ht)
                    λ t ht.
                      Goes-bind _ _ (update_holding op (keystore.encrypts n blob id) message t ht)
                        λ t ht.
                          Goes-bind _ _
                            (finish_holding op message (keystore.mac n blob id message) t
                              (keystore.mac_given n blob id message) ht)
                            λ t ht. Goes-bind _ _ (t, check_mac n t, ht) λ t ht. (t, refl, ht),
        )

    long_enough :
        (n : ℕ) → leb gcm_nonce_bytes (length (wrapped_at sys keystore blob id message n)) ≡ true
    unfolding wrapped_at
    long_enough n =
        let rest : Text =
          body_at sys keystore blob id message n ++ keystore.mac n blob id message in
        ground
          (arith, length-append {0} (keystore.nonce n blob id) rest, keystore.nonce_size n blob id)

    required : (b : Bool) (w : World) → b ≡ true → require b w ≡ (some tt, w)
    unfolding require
    required b w e = rw e refl

    pub decrypt_holding :
        (n : ℕ) (w : World)
        → Held w
        → Goes
            (decrypt_with_keystore_key
              (healthy sys)
              dir
              id
              (wrapped_at sys keystore blob id message n))
            w
            message
            Held
    unfolding decrypt_with_keystore_key wrapped_at body_at pure
    decrypt_holding n w h =
        let c = keystore.nonce n blob id in
        let body_and_mac : Text =
          body_at sys keystore blob id message n ++ keystore.mac n blob id message in
        let m = suc w.clock in
        let op = sys.begins m blob (decrypt id c) in
        Goes-bind _ _
          (
            w,
            required (leb gcm_nonce_bytes (length (wrapped_at sys keystore blob id message n))) w
                (long_enough n),
            h,
          )
          λ t ht.
            rw
              (
                front gcm_nonce_bytes c body_and_mac (keystore.nonce_size n blob id),
                back gcm_nonce_bytes c body_and_mac (keystore.nonce_size n blob id),
              )
              (Goes-bind (begin_keystore_op (healthy sys) dir (decrypt id c))
                (λ op. update_completely (healthy sys) op body_and_mac >>= λ message.
                  finish (healthy sys) op body_and_mac >>= λ last. pure message)
                (begin_holding (decrypt id c) t ht)
                λ u hu.
                  Goes-bind _ _
                    (update_holding (sys.begins (suc t.clock) blob (decrypt id c))
                      (keystore.decrypts (suc t.clock) n blob id) body_and_mac u hu)
                    λ v hv.
                      Goes-bind _ _
                        (finish_holding (sys.begins (suc t.clock) blob (decrypt id c)) body_and_mac
                          (keystore.rest (suc t.clock) n blob id message) v
                          (keystore.accepts (suc t.clock) n blob id message) hv)
                        λ x hx. (
                          x,
                          ap (λ (o : Text). (some o, x))
                              (keystore.opens (suc t.clock) n blob id message),
                          hx,
                        ))
