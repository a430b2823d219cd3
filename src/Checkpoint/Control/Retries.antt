-- ===== src/Checkpoint/Control/Retries.antt =====
-- How many boots a checkpoint lasts, and what an abort and the answers of a process leave.
use platform_system_vold.Base.{
  ℕ, zero, suc, ◌-◌, ◌<◌, ◌≤◌, negsuc, ◌≡◌, refl, ap, ◌∙◌, Bool, true, false, not, ◌||◌, [], ◌∷◌,
  some, arith, ◌==◌, leb, all, take, Text, codes, text_eq, is_digit, ℤ, pos, to_string,
  to_string_digits, to_string_zero, print_ℕ, print_loop,
}
use platform_system_vold.Checkpoint.Control.Types.{done, Env, Cp, rebooted}
use platform_system_vold.Checkpoint.Control.Counter.{
  supports_checkpoint, read_file, write_file, int_max, start_checkpoint, until_space, count_down,
  attempt_with, mark_boot_attempt, clear_count, clear_with, abort_metadata_file, rollback_for,
  needs_rollback, first_answer, needs_checkpoint, abort_changes,
}

until_space_digits : (s : Text) → all is_digit s ≡ true → until_space s ≡ s
unfolding until_space is_digit
until_space_digits [] h = refl
until_space_digits (c ∷ s) h = ground (arith, until_space_digits s)

no_minus : (s : Text) → all is_digit s ≡ true → text_eq (take 3 s) (codes "-1 ") ≡ false
unfolding is_digit
no_minus [] h = refl
no_minus (c ∷ s) h = ground arith

-- The values of an `int`.
abbrev pub IsInt : ℤ → Type 0
IsInt (pos n) = n ≤ int_max
IsInt (negsuc n) = n ≤ int_max

-- `ParseInt` reads back what `std::to_string` printed of an `int`.
abbrev pub ReadsBack : Env → Type 0
ReadsBack env = (z : ℤ) → IsInt z → env.parse_int (to_string z) ≡ some z

-- The file can be read and written, and numbers are read back.
pub record IsHealthy (env : Env) : Type 0 where
  pub reads : env.can_read ≡ true
  pub writes : env.can_write ≡ true
  pub reads_back : ReadsBack env

-- The state after `k` attempts to boot.
unfoldable pub boots : Env → ℕ → Cp → Cp
boots env zero cp = cp
boots env (suc k) cp = (mark_boot_attempt env (boots env k cp)).1

counted :
    (env : Env) (n : ℕ) (cp : Cp)
    → IsHealthy env
    → cp.file ≡ some (to_string (pos n))
    → (count_down env (some (pos n)) cp).1.file ≡ some (to_string (pos (n - 1)))
unfolding count_down write_file
counted env zero cp healthy h = h
counted env (suc n) cp healthy h =
    let same : suc n - 1 ≡ n = omega arith in rw (same, healthy.writes) refl

attempt_counted :
    (env : Env) (n : ℕ) (cp : Cp)
    → IsHealthy env
    → n ≤ int_max
    → cp.file ≡ some (to_string (pos n))
    → (mark_boot_attempt env cp).1.file ≡ some (to_string (pos (n - 1)))
unfolding mark_boot_attempt attempt_with read_file
attempt_counted env n cp healthy small h =
    let text = until_space_digits (to_string (pos n)) (to_string_digits n) in
    let parsed = ap env.parse_int text ∙ healthy.reads_back (pos n) small in
    ground (arith, healthy.reads, parsed, counted env n cp healthy h)

boots_counted :
    (env : Env) (n k : ℕ) (cp : Cp)
    → IsHealthy env
    → n ≤ int_max
    → cp.file ≡ some (to_string (pos n))
    → (boots env k cp).file ≡ some (to_string (pos (n - k)))
unfolding boots
boots_counted env n zero cp healthy small h =
    rw h (ap (λ v. some (to_string (pos v))) (omega arith))
boots_counted env n (suc k) cp healthy small h =
    attempt_counted env (n - k) (boots env k cp) healthy (omega arith)
      (boots_counted env n k cp healthy small h)
    ∙ ap (λ v. some (to_string (pos v))) (omega arith)

needs_rollback_counted :
    (env : Env) (n : ℕ) (cp : Cp)
    → IsHealthy env
    → cp.file ≡ some (to_string (pos n))
    → needs_rollback env cp ≡ (n == 0)
unfolding needs_rollback rollback_for read_file
needs_rollback_counted env n cp healthy h =
    let minus = no_minus (to_string (pos n)) (to_string_digits n) in
    rw (healthy.reads, h, to_string_zero n, minus) (ground arith)

start_counted :
    (env : Env) (n : ℕ) (cp : Cp)
    → IsHealthy env
    → supports_checkpoint env ≡ true
    → n < int_max
    → start_checkpoint env (pos n) cp ≡ (done, record cp { file = some (to_string (pos (suc n))) })
unfolding start_checkpoint write_file
start_counted env n cp healthy supported small = ground (arith, healthy.writes)

-- A checkpoint started with a retry count of `n` lasts `n + 1` boots: the file that it writes makes
-- `cp_needsRollback` answer yes from the attempt with that number on, and no before it.
pub retries_until_rollback :
    (env : Env) (n k : ℕ) (cp : Cp)
    → IsHealthy env
    → supports_checkpoint env ≡ true
    → n < int_max
    → ((start_checkpoint env (pos n) cp).0 ≡ done)
      × (needs_rollback env (boots env k (start_checkpoint env (pos n) cp).1) ≡ leb (suc n) k)
retries_until_rollback env n k cp healthy supported small =
    let started = start_counted env n cp healthy supported small in
    let file = ap (λ r. r.1.file) started in
    (
      ap (λ r. r.0) started,
      needs_rollback_counted env (suc n - k) (boots env k (start_checkpoint env (pos n) cp).1)
            healthy
            (boots_counted env (suc n) k (start_checkpoint env (pos n) cp).1 healthy
              (omega (arith, small)) file)
          ∙ ground arith,
    )

-- What a process answers to its first `cp_needsCheckpoint` it answers to each later one, and no
-- later one changes the state, whatever has become of the file and the slot since.
pub needs_checkpoint_stable :
    (env env' : Env) (cp : Cp)
    → needs_checkpoint env' (needs_checkpoint env cp).1 ≡ needs_checkpoint env cp
unfolding needs_checkpoint first_answer
needs_checkpoint_stable env env' cp = ground arith

needs_checkpoint_file : (env : Env) (cp : Cp) → (needs_checkpoint env cp).1.file ≡ cp.file
unfolding needs_checkpoint first_answer
needs_checkpoint_file env cp = ground arith

cleared :
    (env : Env) (n : ℕ) (cp : Cp)
    → IsHealthy env
    → cp.file ≡ some (to_string (pos n))
    → (clear_count env (some (pos n)) cp).file ≡ some (to_string (pos 0))
unfolding clear_count write_file to_string print_ℕ print_loop
cleared env zero cp healthy h = h
cleared env (suc n) cp healthy h = rw healthy.writes refl

aborted :
    (env : Env) (n : ℕ) (cp : Cp)
    → IsHealthy env
    → n ≤ int_max
    → cp.file ≡ some (to_string (pos n))
    → (abort_metadata_file env cp).file ≡ some (to_string (pos 0))
unfolding abort_metadata_file clear_with read_file
aborted env n cp healthy small h =
    let text = until_space_digits (to_string (pos n)) (to_string_digits n) in
    let parsed = ap env.parse_int text ∙ healthy.reads_back (pos n) small in
    ground (arith, healthy.reads, parsed, cleared env n cp healthy h)

-- Where the file can be read and written, an `int` is read back as it was printed, the file holds a
-- retry count of at most `INT_MAX` and a checkpoint is needed: an abort reboots, and the next
-- `cp_needsRollback` answers yes if no retry is wanted, and otherwise only if no boot was left
-- already.
pub abort_changes_rollback :
    (env : Env) (n : ℕ) (cp : Cp) (message : Text) (retry : Bool)
    → IsHealthy env
    → n ≤ int_max
    → cp.file ≡ some (to_string (pos n))
    → (needs_checkpoint env cp).0 ≡ true
    → ((abort_changes env message retry cp).1 ≡ rebooted message ∷ [])
      × (needs_rollback env (abort_changes env message retry cp).0 ≡ (not retry || n == 0))
unfolding abort_changes
abort_changes_rollback env n cp message retry healthy small h needed =
    let asked = (needs_checkpoint env cp).1 in
    let file = needs_checkpoint_file env cp ∙ h in
    ground (
      arith,
      needs_rollback_counted env n asked healthy file,
      needs_rollback_counted env 0 (abort_metadata_file env asked) healthy
          (aborted env n asked healthy small file),
    )
