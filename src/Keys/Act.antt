-- ===== src/Keys/Act.antt =====
-- Calls that change a state and may fail. `none` stands for `return false` and for the null results
-- of KeyStorage.cpp, Keystore.cpp and KeyUtil.cpp; what was changed before a failure stays changed.
use platform_system_vold.Base.{◌≡◌, refl, Bool, true, false, Option, none, some, if◌then◌else◌}

abbrev pub Act {ℓ} : Type ℓ → Type ℓ → Type ℓ
Act S A = S → Option A × S

module _ {ℓ} {S A : Type ℓ} where
  unfoldable pub pure : A → Act S A
  pure a s = (some a, s)

  unfoldable pub fail : Act S A
  fail s = (none, s)

  -- The part of the state that `f` reads.
  unfoldable pub reads : (S → A) → Act S A
  reads f s = (some (f s), s)

  -- The part that `f` reads, where it is there.
  unfoldable pub finds : (S → Option A) → Act S A
  finds f s = (f s, s)

  unfoldable pub checked : Option A → Act S A
  checked r s = (r, s)

module _ {ℓ} {S A B : Type ℓ} where
  abbrev continue : Option A → (A → Act S B) → Act S B
  continue (some a) f s = f a s
  continue none f s = (none, s)

  infixl 10 ◌>>=◌ ◌>>◌
  unfoldable pub ◌>>=◌ : Act S A → (A → Act S B) → Act S B
  unfolding pure fail reads finds checked
  ◌>>=◌ m f s = let (r, t) = m s in continue r f t

  abbrev pub ◌>>◌ : Act S A → Act S B → Act S B
  m >> n = m >>= λ _. n

abbrev pub is_some {ℓ} : {A : Type ℓ} → Option A → Bool
is_some none = false
is_some (some a) = true

module _ {S : Type 0} where
  unfoldable pub modifies : (S → S) → Act S (Unit {0})
  modifies f s = (some tt, f s)

  -- Whether the call succeeds; it never fails itself.
  unfoldable pub succeeds : {A : Type 0} → Act S A → Act S Bool
  succeeds m s = let (r, t) = m s in (some (is_some r), t)

  unfoldable pub require : Bool → Act S (Unit {0})
  require b s = (if b then some tt else none, s)

  pub bind-some :
      {A B : Type 0} (m : Act S A) (f : A → Act S B) (s : S) {t : S} {a : A}
      → m s ≡ (some a, t)
      → (m >>= f) s ≡ f a t
  unfolding ◌>>=◌
  bind-some m f s h = rw h refl
