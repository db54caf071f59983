-- ===== src/Ext2/Mount.antt =====
-- kernel/fs/ext2.c: what ext2_mount() leaves of the directory when it fails.
use mathlib.Core.Path.{subst}
use ulmix_i.Base.{ℕ, ◌≡◌, inl, inr, refl, true, Option, none, some, arith, Bool-cases}
use ulmix_i.Base.Int.{ℤ, pos, negsuc, is_negative, lt_nat}
use ulmix_i.Devices.{Hd}
use ulmix_i.Ext2.{
  Read, hdd_read, Ext2Fs, ext2_probe, Store, Memory, Result, returned, stopped, ext2_get_direntries,
  read_gdt, mount_at, undo_mount, mount_fs, ext2_mount,
}

-- A failure leaves the mount of a directory as it was.
abbrev Unmounted : (store : Store) → (dir : ℕ) → Result → Type 0
Unmounted store dir (returned status store') =
    is_negative status ≡ true
    → ((store' dir).fs_info ≡ (store dir).fs_info)
      × ((store' dir).mnt_point ≡ (store dir).mnt_point)
Unmounted store dir (stopped how) = Unit {0}

undo_mount-Unmounted :
    (store : Store) (dir : ℕ) (r : Result) → Unmounted store dir (undo_mount (store dir) dir r)
unfolding undo_mount
undo_mount-Unmounted store dir (returned (pos n) store') = λ q. absurd cc
undo_mount-Unmounted store dir (returned (negsuc n) store') = λ q. (ground arith, ground arith)
undo_mount-Unmounted store dir (stopped how) = tt

mount_fs-Unmounted :
    (fuel : ℕ) (read : ℕ → Read) (memory : Memory) (o : Option Ext2Fs) (dir : ℕ) (store : Store)
    → Unmounted store dir (mount_fs fuel read memory o dir store)
unfolding mount_fs
mount_fs-Unmounted fuel read memory none dir store = tt
mount_fs-Unmounted fuel read memory (some fs) dir store =
    elim (Bool-cases (is_negative (read_gdt (read fs.partition.bd) fs))) [
      | inl t ↦ rw t (λ q. (refl, refl))
      | inr t ↦ rw t (
          undo_mount-Unmounted store dir
            (ext2_get_direntries fuel read memory dir (mount_at fs dir store)))
    ]

ext2_mount-Unmounted :
    (fuel : ℕ) (read : ℕ → Read) (memory : Memory) (partition : Hd) (dir : ℕ) (store : Store)
    → Unmounted store dir (ext2_mount fuel read memory partition dir store)
unfolding ext2_mount
ext2_mount-Unmounted fuel read memory partition dir store =
    elim (Bool-cases (is_negative (ext2_probe (read partition.bd) partition))) [
      | inl t ↦ rw t (λ q. (refl, refl))
      | inr t ↦ rw t (elim (Bool-cases (lt_nat (hdd_read (read partition.bd) partition 2 2).0 2)) [
        | inl t' ↦ rw t' (λ q. (refl, refl))
        | inr t' ↦ rw t' (mount_fs-Unmounted fuel read memory _ dir store)
      ])
    ]

-- When ext2_mount() returns an error, from whichever of its steps, the directory belongs to the filesystem
-- and to the mount point that it belonged to before.
pub ext2_mount_error :
    (fuel : ℕ) (read : ℕ → Read) (memory : Memory) (partition : Hd) (dir : ℕ) (store store' : Store)
    (status : ℤ)
    → ext2_mount fuel read memory partition dir store ≡ returned status store'
    → is_negative status ≡ true
    → ((store' dir).fs_info ≡ (store dir).fs_info)
      × ((store' dir).mnt_point ≡ (store dir).mnt_point)
ext2_mount_error fuel read memory partition dir store store' status e q =
    subst (Unmounted store dir) e (ext2_mount-Unmounted fuel read memory partition dir store) q
