-- ===== src/Keys/Eviction.antt =====
-- KeyUtil.cpp: the specifier of an installed key when it is evicted, and the cleanup of busy files.
use platform_system_vold.Base.{
  ℕ, zero, suc, ◌-◌, ◌*◌, ◌^◌, ◌<◌, ◌≡◌, refl, sym, ◌∙◌, ◌⊎◌, Bool, true, false, not, ◌&&◌, Option,
  none, some, ◌==◌, ==_iff, length, length-take, take-length, take, arith, Text, Bool-cases,
  Option-cases, inl, inr,
}
use platform_system_vold.Keys.Act.{is_some}
use platform_system_vold.Keys.World.{System}
use platform_system_vold.Keys.Install.{
  KeySpecifier, descriptor, identifier, EncryptionOptions, EncryptionPolicy, Kernel,
  generate_key_ref, build_key_specifier, requested, with_identifier, install_key, Cleanup,
  never_completed, cleanup_round, cleanup_loop, wait_for_busy_files, fscrypt_key_identifier_size,
  zeros,
}

-- What is relied on of the kernel and of SHA-512: a key is taken under the given descriptor, or
-- under an identifier of 16 bytes that the kernel computes; a digest has 64 bytes.
pub record IsKernel (sys : System) (kernel : Kernel) : Type 0 where
  pub keeps_descriptor :
      (m : Text) (hw : Bool) (d raw : Text) (s : KeySpecifier)
      → kernel.adds m hw (descriptor d) raw ≡ some s
      → s ≡ descriptor d
  pub computes_identifier :
      (m : Text) (hw : Bool) (i raw : Text) (s : KeySpecifier)
      → kernel.adds m hw (identifier i) raw ≡ some s
      → (j : Text) × (s ≡ identifier j) × (length j ≡ fscrypt_key_identifier_size)
  pub digest_size : (t : Text) → length (sys.sha512 t) ≡ 64

-- The specifier under which the kernel takes the key.
abbrev taken_as :
    Kernel → (mountpoint : Text) → Bool → (key : Text) → Option KeySpecifier → Option KeySpecifier
taken_as kernel mountpoint hw key none = none
taken_as kernel mountpoint hw key (some spec) = kernel.adds mountpoint hw spec key

abbrev pub installed_as :
    System
    → Kernel
    → (mountpoint : Text) → EncryptionOptions
    → (key : Text) → EncryptionPolicy
    → Option KeySpecifier
installed_as sys kernel mountpoint options key policy =
    taken_as kernel mountpoint options.use_hw_wrapped key (requested sys options key policy).1

take_all : (n : ℕ) (s : Text) → length s ≡ n → take n s ≡ s
take_all n s h = rw (sym h) (take-length s)

module _ (sys : System) (kernel : Kernel) (laws : IsKernel sys kernel) where
  ref_size : (key : Text) → length (generate_key_ref sys key) ≡ 8
  unfolding generate_key_ref
  ref_size key =
      length-take 8 (sys.sha512 (sys.sha512 key)) (omega (arith, laws.digest_size (sys.sha512 key)))

  module _ (mountpoint : Text) (options : EncryptionOptions) (key : Text)
      (policy : EncryptionPolicy)
      (h : (install_key sys kernel mountpoint options key policy).0 ≡ true) where
    abbrev Agrees : Type 0
    Agrees =
        build_key_specifier (install_key sys kernel mountpoint options key policy).1
        ≡ installed_as sys kernel mountpoint options key policy

    by_descriptor : (options.policy_version == 1) ≡ true → Agrees
    unfolding install_key requested build_key_specifier with_identifier
    by_descriptor e =
        let ref = generate_key_ref sys key in
        let sized : (length ref == 8) ≡ true =
          ground (arith, ref_size key, ==_iff (length ref) 8) in
        elim (Option-cases (kernel.adds mountpoint options.use_hw_wrapped (descriptor ref) key)) [
          | inl none_taken ↦ ground arith
          | inr (s, taken) ↦
              let same = laws.keeps_descriptor mountpoint options.use_hw_wrapped ref key s taken in
              ground arith
        ]

    by_identifier :
        (options.policy_version == 1) ≡ false → (options.policy_version == 2) ≡ true → Agrees
    unfolding install_key requested build_key_specifier with_identifier
    by_identifier e e' =
        let asked : Text = zeros 16 in
        elim (Option-cases (kernel.adds mountpoint options.use_hw_wrapped (identifier asked) key)) [
          | inl none_taken ↦ ground arith
          | inr (s, taken) ↦
              let (j, same, size) =
                laws.computes_identifier mountpoint options.use_hw_wrapped asked key s taken in
              let sized : (length j == 16) ≡ true = ground (arith, ==_iff (length j) 16) in
              let whole : take 16 j ≡ j = take_all 16 j size in ground arith
        ]

    by_neither :
        (options.policy_version == 1) ≡ false → (options.policy_version == 2) ≡ false → Agrees
    unfolding install_key requested
    by_neither e e' = ground arith

  -- On a kernel that takes a key under the given descriptor, or under an identifier of 16 bytes
  -- that it computes, and with digests of 64 bytes: a key that is installed is evicted under the
  -- specifier under which the kernel took it.
  pub install_key-build_key_specifier :
      (mountpoint : Text) (options : EncryptionOptions) (key : Text) (policy : EncryptionPolicy)
      → (install_key sys kernel mountpoint options key policy).0 ≡ true
      → build_key_specifier (install_key sys kernel mountpoint options key policy).1
        ≡ installed_as sys kernel mountpoint options key policy
  install_key-build_key_specifier mountpoint options key policy h =
      elim (Bool-cases (options.policy_version == 1)) [
        | inl e ↦ by_descriptor mountpoint options key policy h e
        | inr e ↦ elim (Bool-cases (options.policy_version == 2)) [
          | inl e' ↦ by_identifier mountpoint options key policy h e e'
          | inr e' ↦ by_neither mountpoint options key policy h e e'
        ]
      ]

-- The milliseconds that have passed when a round has slept.
abbrev pub total_after : (round : ℕ) → ℕ
total_after round = 3200 * (2 ^ suc round - 1)

module _ (kernel : Kernel) (mountpoint : Text) (spec : KeySpecifier) where
  -- No round before this one ends the cleanup.
  abbrev pub all_go_on : (rounds : ℕ) → Bool
  all_go_on zero = true
  all_go_on (suc n) =
      all_go_on n && not (is_some (cleanup_round kernel mountpoint spec n (total_after n)))

  ended_by_round :
      (n : ℕ) (c : Cleanup)
      → kernel.opens mountpoint ≡ true
      → n < 5
      → all_go_on n ≡ true
      → cleanup_round kernel mountpoint spec n (total_after n) ≡ some c
      → wait_for_busy_files kernel mountpoint spec ≡ c
  unfolding wait_for_busy_files cleanup_loop
  ended_by_round zero c o h a e = rw (o, e) refl
  ended_by_round (suc zero) c o h a e = ground arith
  ended_by_round (suc (suc zero)) c o h a e = ground arith
  ended_by_round (suc (suc (suc zero))) c o h a e = ground arith
  ended_by_round (suc (suc (suc (suc zero)))) c o h a e = ground arith
  ended_by_round (suc (suc (suc (suc (suc n))))) c o h a e = absurd (omega arith)

  ended_by_none :
      kernel.opens mountpoint ≡ true
      → all_go_on 5 ≡ true
      → wait_for_busy_files kernel mountpoint spec ≡ never_completed 99200
  unfolding wait_for_busy_files cleanup_loop
  ended_by_none o a = ground arith

  -- On a file system that opens: the cleanup of busy files ends as the first of five rounds that
  -- ends it says, the rounds being after 3.2, 9.6, 22.4, 48 and 99.2 seconds of waiting, and where
  -- none of the five ends it, it gives up after 99.2 seconds.
  pub wait_for_busy_files_ends :
      (c : Cleanup)
      → kernel.opens mountpoint ≡ true
      → ((n : ℕ) × (n < 5)
          × (all_go_on n ≡ true)
          × (cleanup_round kernel mountpoint spec n (total_after n) ≡ some c))
        ⊎ ((all_go_on 5 ≡ true) × (c ≡ never_completed 99200))
      → wait_for_busy_files kernel mountpoint spec ≡ c
  wait_for_busy_files_ends c o (inl (n, h, a, e)) = ended_by_round n c o h a e
  wait_for_busy_files_ends c o (inr (a, e)) = ended_by_none o a ∙ sym e
