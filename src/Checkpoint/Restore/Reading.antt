-- ===== src/Checkpoint/Restore/Reading.antt =====
-- Checkpoint.cpp: `relocatedRead`, and the checksum of what it read.
use platform_system_vold.Base.{
  ℕ, zero, suc, ◌+◌, ◌-◌, ◌*◌, ◌/◌, ◌%◌, ◌^◌, Bool, true, false, [], ◌++◌, Option, none, some,
  if◌then◌else◌, ltb, ◌==◌,
}
use platform_system_vold.Checkpoint.Relocation.{Relocations, relocated, add64, u64_mod}
use platform_system_vold.Checkpoint.Crc.{crc32}
use platform_system_vold.Checkpoint.Restore.Layout.{Bytes, sector_size, read_bytes, LogEntry}

-- What a read returns. `undefined` is behaviour that C++ leaves undefined.
pub data Got : Type 0 where
  got : Bytes → Got
  empty : Got
  undefined : Got

abbrev pub from_read : Option Bytes → Got
from_read none = empty
from_read (some s) = got s

-- `sector * kSectorSize`.
abbrev pub byte_offset : ℕ → ℕ
byte_offset sector = sector * sector_size % u64_mod

-- A block in front of the others.
abbrev pub in_front : Got → Got → Got
in_front (got s) (got t) = got (s ++ t)
in_front (got s) empty = empty
in_front (got s) undefined = undefined
in_front empty rest = empty
in_front undefined rest = undefined

-- A block at the sector that a map gives, if it gives one.
abbrev pub read_sector : Bytes → Option ℕ → ℕ → Got
read_sector disk none n = undefined
read_sector disk (some sector) n = from_read (read_bytes (byte_offset sector) n disk)

-- The loop of a relocated read, with `left` bytes of the buffer to go. `rounds` bounds the number of
-- blocks. The source has no test for a block that does not fit the buffer: it reads it over the end
-- of the buffer, which is undefined behaviour in C++, and `undefined` stands for that.
unfoldable pub read_blocks : Bytes → Relocations → (block_size rounds left sector : ℕ) → Got
read_blocks disk m block_size zero left sector = got []
read_blocks disk m block_size (suc rounds) left sector =
    let rest =
      read_blocks disk m block_size rounds (left - block_size)
        (add64 sector (block_size / sector_size)) in
    if left == 0
    then got []
    else if ltb left block_size
    then undefined
    else in_front (read_sector disk (relocated m sector) block_size) rest

-- As many blocks as a buffer of `size` bytes holds, the last one perhaps in part.
abbrev pub blocks_of : (size block_size : ℕ) → ℕ
blocks_of size block_size = (size + block_size - 1) / block_size

unfoldable pub relocated_read :
    Bytes → Relocations → (validating : Bool) → (sector size block_size : ℕ) → Got
relocated_read disk m false sector size block_size =
    from_read (read_bytes (byte_offset sector) size disk)
relocated_read disk m true sector size block_size =
    read_blocks disk m block_size (blocks_of size block_size) size sector

-- The checksum over the blocks of a buffer. The source has neither test: `none` stands for the
-- undefined behaviour that it has where the start value is divided by 0 sectors, or where the last
-- block is read over the end of the buffer.
unfoldable pub checksum_of : LogEntry → (block_size : ℕ) → Bytes → Option ℕ
checksum_of le block_size buffer =
    if ltb block_size sector_size
    then none
    else if le.size % block_size == 0
    then some (crc32 buffer (le.source / (block_size / sector_size) % 2 ^ 32))
    else none
