-- ===== src/Lib.antt =====
-- vold, the volume daemon of Android: it manages disks and the volumes on them, the keys of
-- encrypted storage, and the checkpoints of the user data. This library models parts of it.
--
-- The binder service (VoldNativeService.cpp) checks its arguments before anything else
-- (VoldNativeServiceValidation.cpp) and forwards each call. Volumes (model/VolumeBase.cpp) are
-- created by disks or by the volume manager, send their events to the listener of the volume
-- manager, and may be stacked on one another. Keys and partition GUIDs travel as hexadecimal text
-- (Utils.cpp). A key rests in a directory of its own, wrapped by a key of Keystore or by the hash of a
-- secret (KeyStorage.cpp), and is installed in the kernel for a file system (KeyUtil.cpp); when Keystore
-- upgrades a wrapping key, the old one is kept until a checkpoint of the user data is committed. The
-- keys of users' credential-encrypted storage are kept several at a time while they change (FsCrypt.cpp).
-- A block checkpoint (Checkpoint.cpp) is a log at the start of a device, which says
-- where the sectors that were overwritten since have been kept; at the next boot it is either
-- discarded or validated and replayed.
--
--   Base          Names and lemmas that the other modules share. Text is a list of bytes; all
--                 numbers are the native ones, with the wrap of machine words written out.
--                 Base/Decimal prints and reads integers in decimal.
--   Hex           Utils.cpp: HexToStr, StrToHex, NormalizeHex, kLookup. A status is a value and the
--                 string that is left behind stands beside it.
--   Validation    VoldNativeServiceValidation.cpp: CheckPermission, CheckUidOrRoot, CheckArgumentId,
--                 CheckArgumentPath, CheckArgumentHex, CheckIncrementalPath. The permission that
--                 the caller holds and its user are parameters.
--   Volume        model/VolumeBase.cpp and model/VolumeBase.h: create, destroy, mount, unmount,
--                 format, setState, the setters, and the list of stacked volumes. An operation
--                 returns the volume it leaves, its status and the events it sent. The functions
--                 that derived classes override are a record of functions, `Hooks`, and what
--                 `VolumeBase` expects of them is `HookLaws`. A failed CHECK is `none`.
--                 model/StubVolume.cpp is one such record (Stub).
--   Disk          model/Disk.cpp: readMetadata and getMaxMinors (Majors), readPartitions
--                 (Partitions), findVolume, listVolumes and getVolumes (Volumes). The files of
--                 sysfs, the lines of sgdisk and the functions of libbase are parameters. The
--                 volumes that a scan asks for are values, not yet volumes.
--   Checkpoint    Checkpoint.cpp: the control of checkpoints and the log of a block checkpoint.
--     Control     cp_startCheckpoint, cp_markBootAttempt, cp_needsCheckpoint, cp_needsRollback,
--                 cp_abortChanges, cp_resetCheckpoint (Counter), cp_commitChanges (Commit),
--                 cp_prepareCheckpoint and the rounds of cp_healthDaemon (Prepare). The state is
--                 the file of the retry count and the flags of the process; `Env` holds what the
--                 boot control service, the mounts, the devices and the file system answer, and
--                 the `ParseInt` of libbase. What is done to the rest of the system is a list of
--                 effects.
--     SectorMap   the `std::map`s that are keyed by sectors, as ascending lists, with the calls the
--                 source makes on them.
--     Relocation  Relocations, relocate, and the sector that relocatedRead looks up.
--     Used        Used_Sectors, checkCollision, markUsed.
--     Crc         crc32 and its table.
--     Restore     relocatedRead and the checksum (Reading), restoreSector and one log entry
--                 (Replaying), cp_restoreCheckpoint (Passes). A device is its bytes; the packed
--                 structures are read from them (Layout). Where the source divides by
--                 zero or goes beyond a buffer, which it does not test and C++ leaves undefined,
--                 the result is a value of its own, `undefined`, `lost` or `unknown`. A device
--                 fails only at its end.
--
--   Keys          KeyStorage.cpp, Keystore.cpp, KeyUtil.cpp, and what they call of Utils.cpp
--                 (writeStringToFile, FsyncDirectory, FsyncParentDirectory, pathExists,
--                 IsSameFile). A function that returns false is an action of the state `World` that
--                 fails (Act); it keeps the state that it has reached.
--     World       The state: the directories of keys, each as it is now and as it would be after a
--                 power loss (`durable`), the two globals key_dirs_to_commit and
--                 storage_binding_info, the keys that Keystore has deleted, and the clock. `System`
--                 holds what is outside: Keystore, the cryptographic library, random bytes,
--                 realpath, and for each call in turn whether it works.
--     Calls       The calls of the file system: reading, writing, fsync, mkdir, rename, unlink.
--     Upgrades    The upgrade of a Keystore key and its deferred commit (CommitUpgradedKey,
--                 DeferredCommitKeystoreKeys, RenameKeyDir, BeginKeystoreOp), the encryption with a
--                 Keystore key, and KeystoreOperation of Keystore.cpp.
--     Storage     generateAppId, setKeyStorageBindingSeed, secdiscardable files, the encryption
--                 without Keystore, storeKey, storeKeyAtomically, retrieveKey, destroyKey.
--     Operations  The functions of KeyStorage.h as a data type, with what each of them does.
--     Install     KeyUtil.cpp: installKey, evictKey, waitForBusyFiles, generateStorageKey,
--                 retrieveOrGenerateKey. What the kernel answers to the ioctls is `Kernel`.
--   UserKeys      FsCrypt.cpp: the CE keys of users. Their paths (Paths: get_ce_key_paths,
--                 get_ce_key_new_path), fixate_user_ce_key (Fixation), the variables of the process
--                 (Users), and create_ce_key, read_and_fixate_user_ce_key,
--                 fscrypt_set_ce_key_protection, fscrypt_deferred_fixate_ce_keys and
--                 fscrypt_unlock_ce_storage (Protection), on the state of Keys. What readdir answers
--                 is a parameter; the options of the data file system are there once they have been
--                 read; of the policies of a user the internal one is kept. The loop of
--                 get_ce_key_new_path counts UINT_MAX rounds, as the source does.
--
-- In Keys, every call to the outside is numbered by the clock and may fail or not by its number, so
-- that a statement about a `System` is one about all combinations of failures; `healthy` is the system
-- with no failure. A directory is known by its canonical path. The kinds of fsync errors that the
-- source takes for success count as success. The durability of a directory's own entry in its parent
-- is not followed. An action that fails also stands for the std::out_of_range that
-- decryptWithKeystoreKey throws on a short text. The loop of updateCompletely has the length of its
-- input as fuel, which is enough because each round takes a byte at least; the loop of
-- waitForBusyFiles has fuel 6, which is enough because the waits double from 3200 milliseconds and
-- stop at 51200, the fifth.
--
-- Loops are recursions on the list they go over, on the tree of stacked volumes, or on a number
-- that the source counts down. The loop of a relocated read counts its blocks, as many as its buffer
-- holds with the last one perhaps in part, which is how often the loop of the source runs; a number
-- is printed with as many digits as its value at most. Sectors are `uint64_t`, with the wrap of each
-- sum written out; sizes of log entries are checked by the source before they are added. Log messages
-- are left out, as are the names under which messages of exceptions quote their arguments. Locks and
-- threads are left out: each function of the control of checkpoints runs as one step, as it does
-- under its lock, and the health daemon as a step for each of its rounds.
--
-- Not modelled: the rest of FsCrypt.cpp (the DE keys, the keys of adoptable volumes, eviction,
-- destruction, the preparation of directories), metadata encryption
-- (MetadataCrypt.cpp), the reference of a key as it is printed (keyrefstring), runSecdiscardSingle and
-- the calls of Keystore that concern no single key (earlyBootEnded, deleteAllKeys), the creation and
-- the formatting of volumes by disks, the other classes that derive from VolumeBase, the volume
-- manager, and what does nothing but system calls: mounts, sockets, ioctls, processes and external
-- commands.
pub mod Base
pub mod Hex
pub mod Validation
pub mod Volume
pub mod Disk
pub mod Checkpoint
pub mod Keys
pub mod UserKeys
