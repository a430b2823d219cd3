-- ===== src/Checkpoint/Restore/Blocks.antt =====
-- How much a relocated read returns.
use platform_system_vold.Base.{ℕ, ◌%◌, ◌≡◌, length}
use platform_system_vold.Checkpoint.Restore.Reading.{Got, got, empty, undefined}

-- What is read is as long as was asked for.
abbrev Sized : ℕ → Got → Type 0
Sized n (got s) = length s ≡ n
Sized n empty = Unit {0}
Sized n undefined = Unit {0}

-- The number of bytes that are read is a multiple of the block size.
abbrev Whole : (block_size left : ℕ) → Got → Type 0
Whole block_size left (got s) = (left % block_size ≡ 0) × (length s ≡ left)
Whole block_size left empty = Unit {0}
Whole block_size left undefined = Unit {0}
