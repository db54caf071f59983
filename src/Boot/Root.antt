-- ===== src/Boot/Root.antt =====
-- kernel/main.c: kmain() on a machine with a bootable disk.
use mathlib.Core.Path.{subst}
use ulmix_i.Base.{
  ℕ, ◌+◌, ◌-◌, ◌*◌, ◌/◌, ◌^◌, ◌<◌, ◌≤◌, ◌≡◌, ◌∙◌, inl, inr, refl, sym, ap, true, false, Option,
  none, some, List, [], ◌∷◌, arith, ◌==◌, if◌then◌else◌, length, replicate, Bool-cases,
}
use ulmix_i.Base.Int.{neg}
use ulmix_i.Base.Memory.{Mem}
use ulmix_i.Base.Slots.{find, free_slots}
use ulmix_i.Errno.{enoent}
use ulmix_i.Heap.{Kheap}
use ulmix_i.Devices.{Hd, Gendisk, get_hdstruct, part}
use ulmix_i.Vfs.{Direntry, Dirs, root_dir, root_direntry, setup_fs}
use ulmix_i.Vfs.Namei.{namei_root, namei_slash_alone}
use ulmix_i.Fs.{returned, suits, probe_fs, do_mount}
use ulmix_i.Fs.Mount.{do_mount-register_fs, do_mount-failed, probe_fs-none}
use ulmix_i.Ext2
use ulmix_i.Ext2.{Read, Ext2Fs, ext2_probe, ext2_mount, mounted_fs, mount_at}
use ulmix_i.Ext2.Inodes.{Reads, HasInode}
use ulmix_i.Ext2.Entries.{Item, entries_of, Fresh}
use ulmix_i.Ext2.Stored.{Stored, HasInodes, inode_on, first_block, ListsDir}
use ulmix_i.Ext2.Super.{superblock_on, ext2_probe-superblock_on}
use ulmix_i.Ext2.Root.{IsRoot, ext2_mount-Stored}
use ulmix_i.Ata.First.{Leads}
use ulmix_i.Boot.{disk_read, mounted, ext2fs, init_ext2, Started, final_heap, no_root, after_mount}

-- A partition with a filesystem in order: its superblock, its root directory with the entries `its`, and
-- their inodes, on a disk that `read` reads.
pub record HasFs (read : Read) (disk : Mem) (partition : Hd) (fs : Ext2Fs) (its : List Item)
    : Type 0 where
  pub linux : partition.fs_type ≡ 0x83
  pub word : 2 + partition.sect_offset < 2 ^ 32
  pub signature : (superblock_on disk partition).signature ≡ 0xef53
  pub described : mounted_fs read partition (superblock_on disk partition) ≡ some fs
  pub block : fs.block_size ≤ 2 ^ 25
  pub groups : fs.gd_count ≤ 2 ^ 20
  pub root : HasInode fs 2
  pub below :
      (inode_on disk fs 2).i_block 0 * (fs.block_size / 512) + partition.sect_offset < 2 ^ 32
  pub stored : Stored fs.block_size disk (first_block disk fs 2) 0 its
  pub inodes : HasInodes fs its

setup_fs-IsRoot : (dirs : Dirs Ext2Fs) → IsRoot (setup_fs dirs) root_dir
unfolding setup_fs
setup_fs-IsRoot dirs = record { entry_parent = refl; parent = refl; empty = refl }

-- The entries that the root directory is to have.
abbrev pub root_entries : Ext2.Memory → (disk : Mem) → Ext2Fs → List Item → List Direntry
root_entries memory disk fs its = entries_of memory (inode_on disk fs) root_dir root_dir 2 2 0 its

-- How kmain() ends, for both values of the byte behind the path.
abbrev pub Ends :
    Ext2.Memory
    → (disk : Mem) → Ext2Fs
    → List Item
    → (m : Mem) → (path : ℕ) → Kheap
    → Dirs Ext2Fs
    → Started
    → Type 0
Ends memory disk fs its m path heap dirs r =
    (store : Dirs Ext2Fs) × (r ≡ (
      if m (path + 1 + 1) == 0
      then final_heap store 0xc0000000 (0xffffffff - 0xc0000000) heap
      else no_root (neg enoent) (setup_fs dirs)))
    × (store root_dir ≡ record (mount_at fs root_dir (setup_fs dirs) root_dir) {
      entries = root_entries memory disk fs its;
    })

module _ (fuel : ℕ) (bds : List (Option Gendisk)) (memory : Ext2.Memory) (d : Gendisk) (disk : Mem)
    (p : Hd) (fs : Ext2Fs) (its : List Item) (leads : Leads d bds) (own : p.bd ≡ d.self)
    (reads : Reads d.read disk) (has : HasFs d.read disk p fs its) where
  disk_read-first : (bds : List (Option Gendisk)) → Leads d bds → disk_read bds d.self ≡ d.read
  unfolding disk_read find
  disk_read-first [] l = absurd l
  disk_read-first (none ∷ bds) l = absurd l
  disk_read-first (some b ∷ bds) l = rw l (ground arith)

  read_own : disk_read bds p.bd ≡ d.read
  read_own = ap (disk_read bds) own ∙ disk_read-first bds leads

  own-Reads : Reads (disk_read bds p.bd) disk
  own-Reads = subst (λ r. Reads r disk) (sym read_own) reads

  suits_ext2 : suits p (ext2fs fuel bds memory) ≡ true
  unfolding ext2fs
  suits_ext2 =
      rw
        (
          ext2_probe-superblock_on (disk_read bds p.bd) disk p own-Reads has.word has.signature,
          has.linux,
        )
        refl

  no_filesystem : probe_fs {F = Ext2Fs} p (replicate 16 none) ≡ none
  no_filesystem = probe_fs-none 16 p

  mounts_root :
      (dirs : Dirs Ext2Fs)
      → Fresh memory root_dir root_dir
      → length its < fuel
      → ListsDir root_dir
          (mount_at fs root_dir (setup_fs dirs))
          (root_entries memory disk fs its)
          (ext2_mount fuel (disk_read bds) memory p root_dir (setup_fs dirs))
  mounts_root dirs fresh enough =
      ext2_mount-Stored fuel (disk_read bds) disk memory p fs root_dir (setup_fs dirs) its own-Reads
        fresh (setup_fs-IsRoot dirs) has.word has.signature
        (ap (λ r. mounted_fs r p (superblock_on disk p)) read_own ∙ has.described) has.block
        has.groups has.root has.below has.stored has.inodes enough

  -- The root directory with the filesystem mounted on it, or the panic; `at` is the partition of minor 1.
  module _ (load : ℕ → Dirs Ext2Fs → Dirs Ext2Fs) (m : Mem) (path : ℕ) (heap : Kheap)
      (dirs : Dirs Ext2Fs) (at : get_hdstruct 4 1 bds ≡ part p) (slash : m path ≡ b'/')
      (alone : m (path + 1) ≡ 0) where
    mount_found :
        (m (path + 1 + 1) == 0) ≡ true
        → do_mount fuel load bds (init_ext2 fuel bds memory) m 4 1 path (setup_fs dirs)
          ≡ mounted (ext2_mount fuel (disk_read bds) memory p root_dir (setup_fs dirs))
    unfolding init_ext2 ext2fs free_slots root_direntry
    mount_found z =
        (do_mount-register_fs fuel load bds (ext2fs fuel bds memory) (replicate 16 none) m 4 1 path
          (setup_fs dirs) (setup_fs dirs) p root_direntry (omega arith) suits_ext2 no_filesystem at
          (namei_root fuel load m path (setup_fs dirs) (ground (arith, slash)) z)).1

    mount_lost :
        (m (path + 1 + 1) == 0) ≡ false
        → 0 < fuel
        → do_mount fuel load bds (init_ext2 fuel bds memory) m 4 1 path (setup_fs dirs)
          ≡ returned (neg enoent) (setup_fs dirs)
    unfolding init_ext2 ext2fs free_slots setup_fs
    mount_lost nz some_fuel =
        do_mount-failed fuel load bds (ext2fs fuel bds memory) (replicate 16 none) m 4 1 path enoent
          (setup_fs dirs) (setup_fs dirs) p (omega arith) suits_ext2 no_filesystem at
          (namei_slash_alone fuel load m path (setup_fs dirs) (ground (arith, slash)) nz alone refl
            some_fuel)

    pub mount-Ends :
        Fresh memory root_dir root_dir
        → length its < fuel
        → Ends memory disk fs its m path heap dirs (
            after_mount heap
              (do_mount fuel load bds (init_ext2 fuel bds memory) m 4 1 path (setup_fs dirs)))
    unfolding after_mount
    mount-Ends fresh enough = go (mounts_root dirs fresh enough)
      where
        go :
            ListsDir root_dir
              (mount_at fs root_dir (setup_fs dirs))
              (root_entries memory disk fs its)
              (ext2_mount fuel (disk_read bds) memory p root_dir (setup_fs dirs))
            → Ends memory disk fs its m path heap dirs (
                after_mount heap
                  (do_mount fuel load bds (init_ext2 fuel bds memory) m 4 1 path (setup_fs dirs)))
        go (store, e, here) = elim (Bool-cases (m (path + 1 + 1) == 0)) [
          | inl z ↦ (store, rw (z, mount_found z, e) refl, here)
          | inr nz ↦ (store, rw (nz, mount_lost nz (omega arith)) refl, here)
        ]
