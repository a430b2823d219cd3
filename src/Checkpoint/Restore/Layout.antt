-- ===== src/Checkpoint/Restore/Layout.antt =====
-- Checkpoint.cpp: `log_entry` and `log_sector_v1_0` as bytes, packed and little-endian, and the reads
-- and writes of the device.
use platform_system_vold.Base.{
  ℕ, zero, suc, ◌+◌, ◌*◌, ◌/◌, ◌%◌, List, [], ◌∷◌, ◌++◌, Option, none, some, if◌then◌else◌, leb,
  length, take, drop,
}

abbrev pub Bytes : Type 0
Bytes = List ℕ

-- The number in the first `n` bytes.
unfoldable pub get_le : ℕ → Bytes → ℕ
get_le zero s = 0
get_le (suc n) [] = 0
get_le (suc n) (b ∷ s) = b + 256 * get_le n s

unfoldable pub put_le : (n value : ℕ) → Bytes
put_le zero value = []
put_le (suc n) value = value % 256 ∷ put_le n (value / 256)

abbrev pub field : (offset n : ℕ) → Bytes → ℕ
field offset n s = get_le n (drop offset s)

abbrev pub overwrite : (offset : ℕ) → Bytes → Bytes → Bytes
overwrite offset new s = take offset s ++ (new ++ drop (offset + length new) s)

abbrev pub sector_size : ℕ
sector_size = 512

abbrev pub log_entry_bytes : ℕ
log_entry_bytes = 24

abbrev pub log_sector_bytes : ℕ
log_sector_bytes = 28

abbrev pub magic_number : ℕ
magic_number = 0x00574f42

abbrev pub partial_restore_magic : ℕ
partial_restore_magic = 0x00424f57

pub record LogEntry : Type 0 where
  pub source : ℕ
  pub dest : ℕ
  pub size : ℕ
  pub checksum : ℕ

pub record LogSector : Type 0 where
  pub magic : ℕ
  pub header_size : ℕ
  pub block_size : ℕ
  pub count : ℕ
  pub sequence : ℕ
  pub sector0 : ℕ

unfoldable pub log_entry_of : Bytes → LogEntry
log_entry_of s = record {
  source = field 0 8 s;
  dest = field 8 8 s;
  size = field 16 4 s;
  checksum = field 20 4 s;
}

unfoldable pub log_sector_of : Bytes → LogSector
log_sector_of s = record {
  magic = field 0 4 s;
  header_size = field 6 2 s;
  block_size = field 8 4 s;
  count = field 12 4 s;
  sequence = field 16 4 s;
  sector0 = field 20 8 s;
}

-- The entry with an index, behind the header of a log sector.
unfoldable pub entry_in : (header_size index : ℕ) → Bytes → LogEntry
entry_in header_size index s = log_entry_of (drop (header_size + log_entry_bytes * index) s)

-- A read at an offset; `none` where the device ends before.
unfoldable pub read_bytes : (offset n : ℕ) → Bytes → Option Bytes
read_bytes offset n disk =
    if leb (offset + n) (length disk) then some (take n (drop offset disk)) else none

-- A write at an offset, which stops at the end of the device.
unfoldable pub write_bytes : (offset : ℕ) → Bytes → Bytes → Bytes
write_bytes offset new disk = take (length disk) (overwrite offset new disk)

-- `lseek64` on a block device: behind its end it fails and the position stays.
abbrev pub seek : (position offset : ℕ) → Bytes → ℕ
seek position offset disk = if leb offset (length disk) then offset else position
