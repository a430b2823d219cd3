-- ===== src/Checkpoint/Restore/Verdict.antt =====
-- What follows on a validation, on which device, and what a failed one changes.
use platform_system_vold.Base.{
  ℕ, ◌+◌, ◌≤◌, ◌≡◌, refl, sym, ap, ◌∙◌, true, false, ◌==◌, ◌++◌, Option, none, some, arith, length,
  length-append, length-take, length-drop, take-length, drop-length, take, drop, ℤ,
}
use platform_system_vold.Checkpoint.Control.Types.{ErrorCode, CpStatus}
use platform_system_vold.Checkpoint.Restore.Layout.{
  Bytes, log_sector_bytes, partial_restore_magic, LogSector, log_sector_of, read_bytes, write_bytes,
}
use platform_system_vold.Checkpoint.Restore.Reading.{
  Got, got, empty, undefined, from_read, relocated_read, byte_offset,
}
use platform_system_vold.Checkpoint.Restore.Replaying.{Progress, Run, going, stopped, lost}
use platform_system_vold.Checkpoint.Restore.Passes.{
  sectors_loop, rounds_of, fresh, Restored, finished, unknown, rolled, roll_forward, head_valid,
  restore_pass, end_validation, restore_checkpoint,
}
use platform_system_vold.Checkpoint.Restore.ReadOnly.{Keeps, sectors_loop-Keeps}

-- What a pass that validates, with its outcome, leads to on the device that it started with.
abbrev pub verdict : ℤ → LogSector → Bytes → Run → Restored
verdict limit original disk (going p) = restore_pass limit disk
verdict limit original disk (stopped e p) = roll_forward original disk
verdict limit original disk lost = unknown

end_validation-verdict :
    (limit : ℤ) (original : LogSector) (disk : Bytes) (r : Run)
    → Keeps disk r
    → end_validation limit original r ≡ verdict limit original disk r
end_validation-verdict limit original disk (going p) h = ap (restore_pass limit) h
end_validation-verdict limit original disk (stopped e p) h = ap (roll_forward original) h
end_validation-verdict limit original disk lost h = refl

-- A log with a valid head that has not been restored in part is validated first, and the validation
-- writes nothing: the replay, or the way back to the original first block if it fails, starts on
-- the device as it was.
pub validation_writes_nothing :
    (limit : ℤ) (disk head : Bytes)
    → read_bytes 0 log_sector_bytes disk ≡ some head
    → head_valid (log_sector_of head) ≡ true
    → ((log_sector_of head).magic == partial_restore_magic) ≡ false
    → restore_checkpoint limit disk
      ≡ verdict limit (log_sector_of head) disk (
          sectors_loop true limit
            (log_sector_of head).block_size
            (rounds_of (log_sector_of head))
            (fresh disk))
unfolding restore_checkpoint
validation_writes_nothing limit disk head found valid whole =
    let original = log_sector_of head in
    let n = rounds_of original in
    let kept = sectors_loop-Keeps limit original.block_size n (fresh disk) in
    rw (found, valid, whole)
      (end_validation-verdict limit original disk
        (sectors_loop true limit original.block_size n (fresh disk)) kept)

from_read_got : (o : Option Bytes) (s : Bytes) → from_read o ≡ got s → o ≡ some s
from_read_got none s h = cc
from_read_got (some t) s h = ground (arith, h)

pub read_bytes-length :
    (offset n : ℕ) (disk s : Bytes)
    → read_bytes offset n disk ≡ some s
    → (length s ≡ n) × (n ≤ length disk)
unfolding read_bytes
read_bytes-length offset n disk s h =
    ground (arith, length-take n (drop offset disk), length-drop offset disk)

-- A write over the front leaves the rest.
write_bytes_front :
    (new disk : Bytes)
    → length new ≤ length disk
    → drop (length new) (write_bytes 0 new disk) ≡ drop (length new) disk
unfolding write_bytes
write_bytes_front new disk h =
    let joined = new ++ drop (length new) disk in
    let same : length disk ≡ length joined =
      omega (arith, length-append new (drop (length new) disk), length-drop (length new) disk) in
    let front : 0 + length new ≡ length new = omega arith in
    ap (λ k. drop (length new) (take (length disk) (new ++ drop k disk))) front
    ∙ ap (λ n. drop (length new) (take n joined)) same
    ∙ ap (drop (length new)) (take-length joined)
    ∙ drop-length new (drop (length new) disk)

rolled_front :
    (n : ℕ) (disk disk' : Bytes) (st : CpStatus) (g : Got)
    → ((s : Bytes) → g ≡ got s → (length s ≡ n) × (n ≤ length disk))
    → rolled disk g ≡ finished st disk'
    → drop n disk' ≡ drop n disk
rolled_front n disk disk' st (got s) sized h =
    let (l, fits) = sized s refl in
    let written : write_bytes 0 s disk ≡ disk' = ground (arith, h) in
    ap (drop n) (sym written)
    ∙ ap (λ k. drop k (write_bytes 0 s disk)) (sym l)
    ∙ write_bytes_front s disk (omega arith)
    ∙ ap (λ k. drop k disk) l
rolled_front n disk disk' st empty sized h = ground (arith, h)
rolled_front n disk disk' st undefined sized h = cc

-- The way back after a failed validation, whatever it returns, changes no byte behind the first
-- block.
roll_forward_first_block :
    (original : LogSector) (disk disk' : Bytes) (st : CpStatus)
    → roll_forward original disk ≡ finished st disk'
    → drop original.block_size disk' ≡ drop original.block_size disk
unfolding roll_forward relocated_read
roll_forward_first_block original disk disk' st h =
    let offset = byte_offset original.sector0 in
    rolled_front original.block_size disk disk' st
      (from_read (read_bytes offset original.block_size disk))
      (λ s e. read_bytes-length offset original.block_size disk s (from_read_got _ s e)) h

-- When the validation of a log with a valid head, that has not been restored in part, ends with an
-- error, the device that `cp_restoreCheckpoint` leaves differs from the one it was given in no byte
-- behind the first block.
pub failed_validation_first_block :
    (limit : ℤ) (disk disk' head : Bytes) (e : ErrorCode) (p : Progress) (st : CpStatus)
    → read_bytes 0 log_sector_bytes disk ≡ some head
    → head_valid (log_sector_of head) ≡ true
    → ((log_sector_of head).magic == partial_restore_magic) ≡ false
    → sectors_loop true limit
        (log_sector_of head).block_size
        (rounds_of (log_sector_of head))
        (fresh disk)
      ≡ stopped e p
    → restore_checkpoint limit disk ≡ finished st disk'
    → drop (log_sector_of head).block_size disk' ≡ drop (log_sector_of head).block_size disk
failed_validation_first_block limit disk disk' head e p st found valid whole failing h =
    let original = log_sector_of head in
    roll_forward_first_block original disk disk' st (
      sym (ap (verdict limit original disk) failing)
      ∙ sym (validation_writes_nothing limit disk head found valid whole)
      ∙ h)
