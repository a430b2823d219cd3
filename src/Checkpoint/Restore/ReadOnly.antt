-- ===== src/Checkpoint/Restore/ReadOnly.antt =====
-- What the loops of a validation do to the device.
use platform_system_vold.Base.{
  ℕ, zero, suc, ◌-◌, ◌^◌, ◌≡◌, refl, Bool, true, false, not, ◌&&◌, ◌||◌, ◌==◌, Option, none, some,
  if◌then◌else◌, ltb, ℤ,
}
use platform_system_vold.Checkpoint.Relocation.{Relocations, relocate}
use platform_system_vold.Checkpoint.Control.Types.{einval}
use platform_system_vold.Checkpoint.Restore.Layout.{
  Bytes, LogEntry, LogSector, log_sector_of, entry_in,
}
use platform_system_vold.Checkpoint.Restore.Reading.{
  Got, got, empty, undefined, relocated_read, checksum_of,
}
use platform_system_vold.Checkpoint.Restore.Replaying.{
  Progress, Run, going, stopped, lost, relocate_to, sectors_of, apply_entry, checked_entry,
  read_entry, entry_step,
}
use platform_system_vold.Checkpoint.Restore.Passes.{
  then_run, entries_loop, sector_read, sector_step, sectors_loop, log_sector_valid, with_sector,
}

-- The run has left the device as it was.
abbrev pub Keeps : Bytes → Run → Type 0
Keeps disk (going p) = p.disk ≡ disk
Keeps disk (stopped e p) = p.disk ≡ disk
Keeps disk lost = Unit {0}

if-Keeps :
    (disk : Bytes) (b : Bool) (r s : Run)
    → Keeps disk r
    → Keeps disk s
    → Keeps disk (if b then r else s)
if-Keeps disk true r s h k = h
if-Keeps disk false r s h k = k

relocate_to-Keeps : (p : Progress) (m : Option Relocations) → Keeps p.disk (relocate_to p m)
relocate_to-Keeps p none = tt
relocate_to-Keeps p (some m) = refl

checked_entry-Keeps :
    (limit : ℤ) (ls : LogSector) (index : ℕ) (le : LogEntry) (buffer : Bytes) (p : Progress)
    (sum : Option ℕ)
    → Keeps p.disk (checked_entry true limit ls index le buffer p sum)
unfolding apply_entry
checked_entry-Keeps limit ls index le buffer p none = tt
checked_entry-Keeps limit ls index le buffer p (some sum) =
    if-Keeps p.disk (not (le.checksum == 0) && not (sum == le.checksum)) (stopped einval p)
      (relocate_to p (relocate p.relocations le.source le.dest (sectors_of le.size))) refl
      (relocate_to-Keeps p (relocate p.relocations le.source le.dest (sectors_of le.size)))

read_entry-Keeps :
    (limit : ℤ) (ls : LogSector) (index : ℕ) (le : LogEntry) (p : Progress) (g : Got)
    → Keeps p.disk (read_entry true limit ls index le p g)
read_entry-Keeps limit ls index le p undefined = tt
read_entry-Keeps limit ls index le p empty = refl
read_entry-Keeps limit ls index le p (got buffer) =
    checked_entry-Keeps limit ls index le buffer p (checksum_of le ls.block_size buffer)

entry_step-Keeps :
    (limit : ℤ) (ls : LogSector) (index : ℕ) (le : LogEntry) (p : Progress)
    → Keeps p.disk (entry_step true limit ls index le p)
unfolding entry_step
entry_step-Keeps limit ls index le p =
    let g = relocated_read p.disk p.relocations true le.dest le.size ls.block_size in
    if-Keeps p.disk (ltb (2 ^ 32 - 1 - le.size) ls.block_size || ltb le.size ls.block_size)
      (stopped einval p) (read_entry true limit ls index le p g) refl
      (read_entry-Keeps limit ls index le p g)

Keeps-cast : (d d' : Bytes) (r : Run) → d ≡ d' → Keeps d r → Keeps d' r
Keeps-cast d d' r e h = rw e at h

then_run-Keeps :
    (disk : Bytes) (r : Run) (f : Progress → Run)
    → Keeps disk r
    → ((q : Progress) → q.disk ≡ disk → Keeps disk (f q))
    → Keeps disk (then_run r f)
then_run-Keeps disk (going p) f h k = k p h
then_run-Keeps disk (stopped e p) f h k = h
then_run-Keeps disk lost f h k = tt

entries_loop-Keeps :
    (limit : ℤ) (ls : LogSector) (n : ℕ) (p : Progress)
    → Keeps p.disk (entries_loop true limit ls n p)
unfolding entries_loop
entries_loop-Keeps limit ls zero p = refl
entries_loop-Keeps limit ls (suc n) p =
    then_run-Keeps p.disk (entry_step true limit ls n (entry_in ls.header_size n p.ls_buffer) p)
      (λ q. entries_loop true limit ls n q)
      (entry_step-Keeps limit ls n (entry_in ls.header_size n p.ls_buffer) p)
      (λ q e.
        Keeps-cast q.disk p.disk (entries_loop true limit ls n q) e
          (entries_loop-Keeps limit ls n q))

sector_read-Keeps :
    (limit : ℤ) (original_block_size sequence : ℕ) (p : Progress) (g : Got)
    → Keeps p.disk (sector_read true limit original_block_size sequence p g)
sector_read-Keeps limit original_block_size sequence p undefined = tt
sector_read-Keeps limit original_block_size sequence p empty = refl
sector_read-Keeps limit original_block_size sequence p (got buffer) =
    let ls = log_sector_of buffer in
    if-Keeps p.disk (log_sector_valid true original_block_size sequence ls)
      (entries_loop true limit ls ls.count (with_sector buffer p)) (stopped einval p)
      (entries_loop-Keeps limit ls ls.count (with_sector buffer p)) refl

pub sectors_loop-Keeps :
    (limit : ℤ) (original_block_size n : ℕ) (p : Progress)
    → Keeps p.disk (sectors_loop true limit original_block_size n p)
unfolding sectors_loop sector_step
sectors_loop-Keeps limit original_block_size zero p = refl
sectors_loop-Keeps limit original_block_size (suc n) p =
    then_run-Keeps p.disk (sector_step true limit original_block_size n p)
      (λ q. sectors_loop true limit original_block_size n q)
      (sector_read-Keeps limit original_block_size n p
        (relocated_read p.disk p.relocations true 0 original_block_size original_block_size))
      (λ q e.
        Keeps-cast q.disk p.disk (sectors_loop true limit original_block_size n q) e
          (sectors_loop-Keeps limit original_block_size n q))
