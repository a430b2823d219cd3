-- ===== src/Keys/Streams.antt =====
-- Keystore.cpp: `KeystoreOperation::updateCompletely` against one call of `update` with the whole
-- input.
use platform_system_vold.Base.{
  ℕ, zero, suc, ◌≤◌, ◌+◌, ◌-◌, ◌/◌, ◌≡◌, refl, sym, ap, ap₂, ◌∙◌, true, [], ◌∷◌, ◌++◌, some, arith,
  length, take, drop, Text, length-drop,
}
use platform_system_vold.Keys.Act.{Act, ◌>>=◌, pure, checked, require}
use platform_system_vold.Keys.World.{System, World, Operation}
use platform_system_vold.Keys.Calls.{call}
use platform_system_vold.Keys.Upgrades.{
  update_round, update_loop, update_completely, update_input_max_size,
}

-- The same system when no call fails.
abbrev pub healthy : System → System
healthy sys = record sys { works = λ n. true }

-- What Keystore takes in one call of `update`, by its interface: 32 KiB.
abbrev pub request_max : ℕ
request_max = 32768

-- An operation with an output for each input, which `update` gives for inputs that Keystore takes in
-- one call. The output for two inputs in turn is the output for the two at once.
pub record Streams (op : Operation) : Type 0 where
  pub output : (before input : Text) → Text
  pub updates :
      (before input : Text)
      → length input ≤ request_max
      → op.update before input ≡ some (output before input)
  pub of_empty : (before : Text) → output before [] ≡ []
  pub of_append :
      (before a b : Text) → output before (a ++ b) ≡ output before a ++ output (before ++ a) b

take-drop : (n : ℕ) (s : Text) → take n s ++ drop n s ≡ s
take-drop zero s = refl
take-drop (suc n) [] = refl
take-drop (suc n) (c ∷ s) = ap (λ (t : Text). c ∷ t) (take-drop n s)

-- The same state at another time.
abbrev pub later : ℕ → World → World
later n w = record w { clock = n }

-- The call succeeds with `a` and changes the time only.
abbrev pub Passes : {A : Type 0} → Act World A → World → A → Type 0
Passes m w a = (n : ℕ) × (m w ≡ (some a, later n w))

-- The calls that hand over an input of this length.
abbrev rounds : (size : ℕ) → ℕ
rounds size = (size + 32767) / 32768

same_clock : (k : ℕ) → k ≡ k + rounds 0
same_clock k = omega arith

one_more : (k size left : ℕ) → left ≡ suc size - 32768 → suc k + rounds left ≡ k + rounds (suc size)
one_more k size left h = omega arith

take_fits : (n : ℕ) (s : Text) → length (take n s) ≤ n
take_fits zero s = omega arith
take_fits (suc n) [] = omega arith
take_fits (suc n) (c ∷ s) = omega (arith, take_fits n s)

module _ (sys : System) (op : Operation) (streams : Streams op) where
  update_round-Passes :
      (before chunk : Text) (w : World)
      → length chunk ≤ request_max
      → update_round (healthy sys) op before chunk w
        ≡ (some (streams.output before chunk), later (suc w.clock) w)
  unfolding update_round call ◌>>=◌ checked require
  update_round-Passes before chunk w fits = rw (streams.updates before chunk fits) refl

  split_output :
      (n : ℕ) (before s : Text)
      → streams.output before (take n s) ++ streams.output (before ++ take n s) (drop n s)
        ≡ streams.output before s
  split_output n before s =
      sym (streams.of_append before (take n s) (drop n s))
      ∙ ap (streams.output before) (take-drop n s)

  update_loop-output :
      (fuel : ℕ) (before s : Text) (w : World)
      → length s ≤ fuel
      → update_loop (healthy sys) fuel op before s w
        ≡ (some (streams.output before s), later (w.clock + rounds (length s)) w)
  unfolding update_loop pure ◌>>=◌
  update_loop-output fuel before [] w h =
      rw (streams.of_empty before) (ap (λ (n : ℕ). (some [], later n w)) (same_clock w.clock))
  update_loop-output zero before (c ∷ s) w h = absurd (omega arith)
  update_loop-output (suc fuel) before (c ∷ s) w h =
      let chunk : Text = take update_input_max_size (c ∷ s) in
      let left : Text = drop update_input_max_size (c ∷ s) in
      let left_size : length left ≡ length (c ∷ s) - 32768 =
        length-drop {0} update_input_max_size (c ∷ s) in
      let fits : length left ≤ fuel = omega (arith, left_size) in
      let small : length chunk ≤ request_max = take_fits update_input_max_size (c ∷ s) in
      let e = update_loop-output fuel (before ++ chunk) left (later (suc w.clock) w) fits in
      let clock = one_more w.clock (length s) (length left) left_size in
      rw (update_round-Passes before chunk w small, e)
        (ap₂ (λ (o : Text) (n : ℕ). (some o, later n w))
          (split_output update_input_max_size before (c ∷ s)) clock)

  -- Where no call fails and Keystore takes 32 KiB in one call, with an output for two inputs in turn
  -- that is the output for the two at once: the whole input is handed over, its output is that for
  -- the whole input, and one call is made for each 32 KiB that the input begins.
  pub update_completely-output :
      (s : Text) (w : World)
      → update_completely (healthy sys) op s w
        ≡ (some (streams.output [] s), later (w.clock + (length s + 32767) / 32768) w)
  unfolding update_completely
  update_completely-output s w = update_loop-output (length s) [] s w (omega arith)

  pub update_completely-Passes :
      (s : Text) (w : World) → Passes (update_completely (healthy sys) op s) w (streams.output [] s)
  update_completely-Passes s w =
      (w.clock + (length s + 32767) / 32768, update_completely-output s w)
