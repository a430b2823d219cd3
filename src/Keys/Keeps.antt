-- ===== src/Keys/Keeps.antt =====
-- Predicates of the state that an action keeps, one rule for each way to build an action.
use platform_system_vold.Base.{◌≡◌, refl, Bool, true, false, Option, none, some, if◌then◌else◌}
use platform_system_vold.Keys.Act.{
  Act, pure, fail, reads, finds, checked, ◌>>=◌, modifies, succeeds, require,
}

-- From states with `P` the action `m` leads to states with `Q`, whether it succeeds or fails.
pub record Leads {ℓ} {S A : Type ℓ} (P Q : S → Type ℓ) (m : Act S A) : Type ℓ where
  pub led : (s : S) → P s → Q (m s).1

-- `m` keeps `P`, whether it succeeds or fails.
pub record Keeps {ℓ} {S A : Type ℓ} (P : S → Type ℓ) (m : Act S A) : Type ℓ where
  pub kept : (s : S) → P s → P (m s).1

module _ {ℓ} {S A : Type ℓ} {P : S → Type ℓ} where
  pub Keeps-pure : (a : A) → Keeps P (pure a)
  unfolding pure
  Keeps-pure a = record { kept = λ s h. h }

  pub Keeps-fail : Keeps P (fail {A = A})
  unfolding fail
  Keeps-fail = record { kept = λ s h. h }

  pub Keeps-reads : (f : S → A) → Keeps P (reads f)
  unfolding reads
  Keeps-reads f = record { kept = λ s h. h }

  pub Keeps-finds : (f : S → Option A) → Keeps P (finds f)
  unfolding finds
  Keeps-finds f = record { kept = λ s h. h }

  pub Keeps-checked : (r : Option A) → Keeps P (checked r)
  unfolding checked
  Keeps-checked r = record { kept = λ s h. h }

  pub Keeps-if : (b : Bool) (m n : Act S A) → Keeps P m → Keeps P n → Keeps P (if b then m else n)
  Keeps-if true m n km kn = km
  Keeps-if false m n km kn = kn

module _ {ℓ} {S A B : Type ℓ} {P : S → Type ℓ} where
  rest_kept :
      (r : Option A) (f : A → Act S B) (t : S)
      → ((a : A) → Keeps P (f a))
      → P t
      → P ((checked r >>= f) t).1
  unfolding ◌>>=◌
  rest_kept none f t kf h = h
  rest_kept (some a) f t kf h = (kf a).kept t h

  pub Keeps-bind :
      (m : Act S A) (f : A → Act S B) → Keeps P m → ((a : A) → Keeps P (f a)) → Keeps P (m >>= f)
  unfolding ◌>>=◌
  Keeps-bind m f km kf = record {
    kept = λ s h. let (r, t) = m s in rest_kept r f t kf (km.kept s h);
  }

module _ {ℓ} {S A B : Type ℓ} where
  result_splits :
      {Q : S → Type ℓ} (m : Act S A) (f : A → Act S B) (s : S) (r : Option A) (t : S)
      → m s ≡ (r, t)
      → ((u : S) → m s ≡ (none, u) → Q u)
      → ((a : A) (u : S) → m s ≡ (some a, u) → Q (f a u).1)
      → Q ((checked r >>= f) t).1
  unfolding ◌>>=◌
  result_splits m f s none t e lost won = lost t e
  result_splits m f s (some a) t e lost won = won a t e

  -- A state after `m` and `f`, by whether `m` succeeds.
  pub after_bind :
      {Q : S → Type ℓ} (m : Act S A) (f : A → Act S B) (s : S)
      → ((u : S) → m s ≡ (none, u) → Q u)
      → ((a : A) (u : S) → m s ≡ (some a, u) → Q (f a u).1)
      → Q ((m >>= f) s).1
  unfolding ◌>>=◌
  after_bind m f s lost won = let (r, t) = m s in result_splits m f s r t refl lost won

module _ {ℓ} {S A B : Type ℓ} {P Q : S → Type ℓ} where
  rest_led :
      (r : Option A) (f : A → Act S B) (t : S)
      → ((s : S) → P s → Q s)
      → ((a : A) → Leads P Q (f a))
      → P t
      → Q ((checked r >>= f) t).1
  unfolding ◌>>=◌
  rest_led none f t weaker lf h = weaker t h
  rest_led (some a) f t weaker lf h = (lf a).led t h

  -- The first action keeps `P`, which is the stronger predicate.
  pub Leads-first :
      (m : Act S A) (f : A → Act S B)
      → Keeps P m
      → ((s : S) → P s → Q s)
      → ((a : A) → Leads P Q (f a))
      → Leads P Q (m >>= f)
  unfolding ◌>>=◌
  Leads-first m f km weaker lf = record {
    led = λ s h. let (r, t) = m s in rest_led r f t weaker lf (km.kept s h);
  }

  pub Leads-then :
      (m : Act S A) (f : A → Act S B)
      → Leads P Q m
      → ((a : A) → Keeps Q (f a))
      → Leads P Q (m >>= f)
  unfolding ◌>>=◌
  Leads-then m f lm kf = record { led = λ s h. let (r, t) = m s in rest_kept r f t kf (lm.led s h) }

-- From states with `P` the action `m` leads to states with `Q` if it succeeds, and with `R` if it
-- fails.
abbrev pub Post {ℓ} : {S A : Type ℓ} → (Q R : S → Type ℓ) → Option A × S → Type ℓ
Post Q R (some a, s) = Q s
Post Q R (none, s) = R s

pub record Ends {ℓ} {S A : Type ℓ} (P Q R : S → Type ℓ) (m : Act S A) : Type ℓ where
  pub ends : (s : S) → P s → Post Q R (m s)

module _ {ℓ} {S A B : Type ℓ} {M Q R : S → Type ℓ} where
  rest-Ends :
      (r : Option A) (f : A → Act S B) (t : S)
      → ((a : A) → Ends M Q R (f a))
      → Post M R (r, t)
      → Post Q R ((checked r >>= f) t)
  unfolding ◌>>=◌
  rest-Ends none f t ef h = h
  rest-Ends (some a) f t ef h = (ef a).ends t h

  rest_leads :
      (r : Option A) (f : A → Act S B) (t : S)
      → ((s : S) → R s → Q s)
      → ((a : A) → Leads M Q (f a))
      → Post M R (r, t)
      → Q ((checked r >>= f) t).1
  unfolding ◌>>=◌
  rest_leads none f t weaker lf h = weaker t h
  rest_leads (some a) f t weaker lf h = (lf a).led t h

module _ {ℓ} {S A B : Type ℓ} {P M Q R : S → Type ℓ} where
  pub Ends-bind :
      (m : Act S A) (f : A → Act S B)
      → Ends P M R m
      → ((a : A) → Ends M Q R (f a))
      → Ends P Q R (m >>= f)
  unfolding ◌>>=◌
  Ends-bind m f em ef = record {
    ends = λ s h. let (r, t) = m s in rest-Ends r f t ef (em.ends s h);
  }

  pub Leads-Ends :
      (m : Act S A) (f : A → Act S B)
      → Ends P M R m
      → ((s : S) → R s → Q s)
      → ((a : A) → Leads M Q (f a))
      → Leads P Q (m >>= f)
  unfolding ◌>>=◌
  Leads-Ends m f em weaker lf = record {
    led = λ s h. let (r, t) = m s in rest_leads r f t weaker lf (em.ends s h);
  }

module _ {ℓ} {S A : Type ℓ} {P R : S → Type ℓ} where
  kept-Post : (r : Option A) (t : S) → ((s : S) → P s → R s) → P t → Post P R (r, t)
  kept-Post none t weaker h = weaker t h
  kept-Post (some a) t weaker h = h

  pub Ends-kept : (m : Act S A) → Keeps P m → ((s : S) → P s → R s) → Ends P P R m
  Ends-kept m km weaker = record {
    ends = λ s h. let (r, t) = m s in kept-Post r t weaker (km.kept s h);
  }

module _ {S : Type 0} {P : S → Type 0} where
  pub Keeps-modifies : (f : S → S) → ((s : S) → P s → P (f s)) → Keeps P (modifies f)
  unfolding modifies
  Keeps-modifies f k = record { kept = k }

  pub Keeps-succeeds : {A : Type 0} (m : Act S A) → Keeps P m → Keeps P (succeeds m)
  unfolding succeeds
  Keeps-succeeds m km = record { kept = km.kept }

  pub Keeps-require : (b : Bool) → Keeps P (require b)
  unfolding require
  Keeps-require b = record { kept = λ s h. h }

pub ruleset keeps_rules = (
  Keeps-pure, Keeps-fail, Keeps-reads, Keeps-finds, Keeps-checked, Keeps-if, Keeps-bind,
  Keeps-modifies, Keeps-succeeds, Keeps-require,
)
