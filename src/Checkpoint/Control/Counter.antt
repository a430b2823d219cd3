-- ===== src/Checkpoint/Control/Counter.antt =====
-- Checkpoint.cpp: the file that counts the boots which are left, and the decisions it takes part in:
-- `cp_startCheckpoint`, `cp_markBootAttempt`, `cp_needsCheckpoint`, `cp_needsRollback`,
-- `cp_abortChanges` and `cp_resetCheckpoint`.
use platform_system_vold.Base.{
  ℕ, zero, suc, ◌^◌, ◌-◌, Bool, true, false, not, ◌&&◌, ◌||◌, List, [], ◌∷◌, ◌++◌, Option, none,
  some, if◌then◌else◌, ◌==◌, any, take, drop, Text, codes, text_eq, ℤ, pos, negsuc, to_string,
}
use platform_system_vold.Checkpoint.Control.Types.{
  enotsup, einval, last_errno, CpStatus, done, failed, BootControl, Env, Cp, Effect, rebooted,
}

-- `cp_supportsCheckpoint`, `cp_supportsBlockCheckpoint` and `cp_supportsFileCheckpoint`.
unfoldable pub supports_checkpoint : Env → Bool
supports_checkpoint env = any (λ e. e.checkpoint_blk || e.checkpoint_fs) env.fstab

unfoldable pub supports_block_checkpoint : Env → Bool
supports_block_checkpoint env = any (λ e. e.checkpoint_blk) env.fstab

unfoldable pub supports_file_checkpoint : Env → Bool
supports_file_checkpoint env = any (λ e. e.checkpoint_fs) env.fstab

unfoldable pub read_file : Env → Cp → Option Text
read_file env cp = if env.can_read then cp.file else none

-- `WriteStringToFile` to the file: whether it succeeds, and the state it leaves.
unfoldable pub write_file : Env → Text → Cp → Bool × Cp
write_file env content cp =
    if env.can_write
    then (true, record cp { file = some content })
    else (false, record cp { file = env.after_failed_write cp.file content })

-- `int` sums wrap here; C++ leaves the sum of `INT_MAX` and 1 undefined.
abbrev pub int_max : ℕ
int_max = 2 ^ 31 - 1

abbrev pub increment : ℤ → ℤ
increment (pos n) = if n == int_max then negsuc int_max else pos (suc n)
increment (negsuc zero) = pos 0
increment (negsuc (suc n)) = negsuc n

abbrev pub behind_space : Text → Text
behind_space [] = []
behind_space (c ∷ s) = b' ' ∷ (c ∷ s)

-- " " and the suffix of the current slot, where there is one.
abbrev pub slot_suffix : Option BootControl → Text
slot_suffix none = []
slot_suffix (some b) = behind_space b.current_suffix

abbrev pub start_content : Env → ℤ → Text
start_content env (negsuc zero) =
    to_string (increment (negsuc zero)) ++ slot_suffix env.boot_control
start_content env retry = to_string (increment retry)

abbrev pub below_minus_one : ℤ → Bool
below_minus_one (negsuc (suc n)) = true
below_minus_one _ = false

abbrev pub written : Bool → CpStatus
written b = if b then done else failed last_errno

unfoldable pub start_checkpoint : Env → ℤ → Cp → CpStatus × Cp
start_checkpoint env retry cp =
    let (ok, after) = write_file env (start_content env retry) cp in
    if not (supports_checkpoint env)
    then (failed enotsup, cp)
    else if below_minus_one retry
    then (failed einval, cp)
    else (written ok, after)

-- `oldContent.substr(0, oldContent.find_first_of(" "))`.
unfoldable pub until_space : Text → Text
until_space [] = []
until_space (c ∷ s) = let rest = until_space s in if c == b' ' then [] else c ∷ rest

-- `cp_markBootAttempt` once the retry count is parsed.
unfoldable pub count_down : Env → Option ℤ → Cp → CpStatus × Cp
count_down env (some (pos (suc n))) cp =
    let (ok, after) = write_file env (to_string (pos n)) cp in (written ok, after)
count_down env (some (pos zero)) cp = (done, cp)
count_down env (some (negsuc n)) cp = (done, cp)
count_down env none cp = (failed einval, cp)

unfoldable pub attempt_with : Env → Option Text → Cp → CpStatus × Cp
attempt_with env none cp = (failed last_errno, cp)
attempt_with env (some content) cp = count_down env (env.parse_int (until_space content)) cp

unfoldable pub mark_boot_attempt : Env → Cp → CpStatus × Cp
mark_boot_attempt env cp = elim cp.file [
  | none ↦ (done, cp)
  | some c ↦ attempt_with env (read_file env cp) cp
]

-- `abort_metadata_file` once the retry count is parsed: no boot is left.
unfoldable pub clear_count : Env → Option ℤ → Cp → Cp
clear_count env (some (pos (suc n))) cp = (write_file env (codes "0") cp).1
clear_count env (some (pos zero)) cp = cp
clear_count env (some (negsuc n)) cp = cp
clear_count env none cp = cp

unfoldable pub clear_with : Env → Option Text → Cp → Cp
clear_with env none cp = cp
clear_with env (some content) cp = clear_count env (env.parse_int (until_space content)) cp

unfoldable pub abort_metadata_file : Env → Cp → Cp
abort_metadata_file env cp = elim cp.file [
  | none ↦ cp
  | some c ↦ clear_with env (read_file env cp) cp
]

abbrev pub on_slot : Option BootControl → Text → Bool
on_slot none suffix = false
on_slot (some b) suffix = text_eq suffix b.current_suffix

unfoldable pub rollback_for : Env → Option Text → Bool
rollback_for env none = false
rollback_for env (some content) =
    text_eq content (codes "0")
    || (text_eq (take 3 content) (codes "-1 ") && on_slot env.boot_control (drop 3 content))

unfoldable pub needs_rollback : Env → Cp → Bool
needs_rollback env cp = rollback_for env (read_file env cp)

-- The boot control service says that the current slot has not been marked successful.
abbrev pub slot_unproven : Option BootControl → Bool
slot_unproven none = false
slot_unproven (some b) = elim b.slot_marked_successful [ none ↦ false | some marked ↦ not marked ]

abbrev pub counts : Option Text → Bool
counts none = false
counts (some content) = not (text_eq content (codes "0"))

abbrev pub answer : Bool → Cp → Bool × Cp
answer b cp = (b, record cp { is_checkpointing = b })

-- `cp_needsCheckpoint` on its first call.
unfoldable pub first_answer : Env → Cp → Bool × Cp
first_answer env cp =
    if cp.is_checkpointing
    then (true, cp)
    else if slot_unproven env.boot_control
    then answer true cp
    else answer (counts (read_file env cp)) cp

unfoldable pub needs_checkpoint : Env → Cp → Bool × Cp
needs_checkpoint env cp =
    if cp.needs_checkpoint_was_called
    then (cp.is_checkpointing, cp)
    else first_answer env (record cp { needs_checkpoint_was_called = true })

unfoldable pub abort_changes : Env → (message : Text) → (retry : Bool) → Cp → Cp × List Effect
abort_changes env message retry cp =
    let (needed, asked) = needs_checkpoint env cp in
    if not needed
    then (asked, [])
    else (if retry then asked else abort_metadata_file env asked, rebooted message ∷ [])

unfoldable pub reset_checkpoint : Cp → Cp
reset_checkpoint cp = record cp { needs_checkpoint_was_called = false }
