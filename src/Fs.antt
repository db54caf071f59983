-- ===== src/Fs.antt =====
-- kernel/fs/fs.c, kernel/fs/mount.c: the table of filesystems, and mounting a partition. What a filesystem
-- does is a parameter of its record.
pub mod Mount
mod Tests
use ulmix_i.Base.{ℕ, Bool, ◌&&◌, Option, none, some, List, ◌==◌}
use ulmix_i.Base.Int.{ℤ, pos, neg}
use ulmix_i.Base.Memory.{Mem}
use ulmix_i.Base.Slots.{claim, find}
use ulmix_i.Errno.{eagain, enodev, efsnotsup}
use ulmix_i.Devices.{Hd, Gendisk, null, part, wild, get_hdstruct}
use ulmix_i.Vfs.{Direntry, Dirs, found, failed, overflow, out_of_fuel, namei}

-- What a mount returns; `undefined` stands for all that does not return: undefined behaviour, a failed
-- assertion, or no fuel left.
pub data Mounted (F : Type 0) : Type 0 where
  returned : ℤ → Dirs F → Mounted F
  undefined : Mounted F

-- fs_probe() tells whether it returns SUCCESS.
pub record Fs (F : Type 0) : Type 0 where
  pub mbr_id : ℕ
  pub fs_probe : Hd → Bool
  pub fs_mount : Hd → (mnt_point : ℕ) → Dirs F → Mounted F

-- A table of MAX_FILESYSTEMS places.
pub register_fs : {F : Type 0} → Fs F → List (Option (Fs F)) → ℤ × List (Option (Fs F))
register_fs fs filesystems = elim (claim fs filesystems) [
  | none ↦ (neg eagain, filesystems)
  | some filesystems' ↦ (pos 0, filesystems')
]

abbrev pub suits : {F : Type 0} → Hd → Fs F → Bool
suits partition fs = fs.mbr_id == partition.fs_type && fs.fs_probe partition

pub probe_fs : {F : Type 0} → Hd → List (Option (Fs F)) → Option (Fs F)
probe_fs partition = find (suits partition)

pub do_mount :
    {F : Type 0}
    → ℕ
    → (load : ℕ → Dirs F → Dirs F) → List (Option Gendisk)
    → List (Option (Fs F))
    → Mem
    → (dev_major dev_minor mount_path : ℕ) → Dirs F
    → Mounted F
do_mount fuel load bd_list filesystems m dev_major dev_minor mount_path dirs =
    elim (get_hdstruct dev_major dev_minor bd_list) [
      | null ↦ returned (neg enodev) dirs
      | wild ↦ undefined
      | part partition ↦ elim (probe_fs partition filesystems) [
        | none ↦ returned (neg efsnotsup) dirs
        | some fs ↦ elim (namei fuel load m mount_path dirs) [
          | failed err dirs' ↦ returned (neg err) dirs'
          | found de dirs' ↦ fs.fs_mount partition de.directory dirs'
          | overflow ↦ undefined
          | out_of_fuel ↦ undefined
        ]
      ]
    ]
