-- ===== src/Checkpoint/Control/Slots.antt =====
-- A checkpoint for one slot, which is started with a retry count of -1.
use platform_system_vold.Base.{
  ℕ, zero, suc, ◌≡◌, refl, ap, true, false, ◌∷◌, ◌++◌, some, arith, Text, codes, pos, negsuc,
  to_string, print_ℕ, print_loop,
}
use platform_system_vold.Checkpoint.Control.Types.{done, BootControl, Env, Cp}
use platform_system_vold.Checkpoint.Control.Counter.{
  supports_checkpoint, read_file, write_file, start_checkpoint, until_space, count_down,
  attempt_with, mark_boot_attempt, rollback_for, needs_rollback,
}
use platform_system_vold.Checkpoint.Control.Retries.{IsHealthy, boots}

abbrev for_slot : Text → Text
for_slot suffix = codes "0 " ++ suffix

attempt_kept :
    (env : Env) (suffix : Text) (cp : Cp)
    → IsHealthy env
    → cp.file ≡ some (for_slot suffix)
    → (mark_boot_attempt env cp).1.file ≡ some (for_slot suffix)
unfolding mark_boot_attempt attempt_with read_file until_space count_down to_string print_ℕ
    print_loop
attempt_kept env suffix cp healthy h =
    let parsed : env.parse_int (codes "0") ≡ some (pos 0) =
      healthy.reads_back (pos 0) (omega arith) in
    ground (arith, healthy.reads, parsed, h)

boots_kept :
    (env : Env) (suffix : Text) (k : ℕ) (cp : Cp)
    → IsHealthy env
    → cp.file ≡ some (for_slot suffix)
    → (boots env k cp).file ≡ some (for_slot suffix)
unfolding boots
boots_kept env suffix zero cp healthy h = h
boots_kept env suffix (suc k) cp healthy h =
    attempt_kept env suffix (boots env k cp) healthy (boots_kept env suffix k cp healthy h)

rollback_not_asked :
    (env : Env) (suffix : Text) (cp : Cp)
    → cp.file ≡ some (for_slot suffix)
    → needs_rollback env cp ≡ false
unfolding needs_rollback rollback_for read_file
rollback_not_asked env suffix cp h = ground (arith, h)

started_for_slot :
    (env : Env) (b : BootControl) (c : ℕ) (s : Text) (cp : Cp)
    → IsHealthy env
    → supports_checkpoint env ≡ true
    → env.boot_control ≡ some b
    → b.current_suffix ≡ c ∷ s
    → start_checkpoint env (negsuc 0) cp ≡ (done, record cp { file = some (for_slot (c ∷ s)) })
unfolding start_checkpoint write_file to_string print_ℕ print_loop
started_for_slot env b c s cp healthy supported slots named =
    rw (supported, healthy.writes, slots, named) refl

-- After `cp_startCheckpoint` with -1 on a device with slots, no number of boot attempts on any slot
-- makes `cp_needsRollback` answer yes: the file holds "0 " and the suffix of the slot, while a
-- rollback is asked for by "0" alone or by "-1 " and the suffix.
pub slot_never_rolls_back :
    (env env' : Env) (b : BootControl) (c : ℕ) (s : Text) (k : ℕ) (cp : Cp)
    → IsHealthy env
    → IsHealthy env'
    → supports_checkpoint env ≡ true
    → env.boot_control ≡ some b
    → b.current_suffix ≡ c ∷ s
    → ((start_checkpoint env (negsuc 0) cp).0 ≡ done)
      × (needs_rollback env' (boots env' k (start_checkpoint env (negsuc 0) cp).1) ≡ false)
slot_never_rolls_back env env' b c s k cp healthy healthy' supported slots named =
    let started = started_for_slot env b c s cp healthy supported slots named in
    let state = (start_checkpoint env (negsuc 0) cp).1 in
    (
      ap (λ r. r.0) started,
      rollback_not_asked env' (c ∷ s) (boots env' k state)
          (boots_kept env' (c ∷ s) k state healthy' (ap (λ r. r.1.file) started)),
    )
