-- ===== src/Ext2/Tests.antt =====
-- kernel/fs/ext2.c: a partition with a root directory, and a few broken ones.
use mathlib.Core.Path.{subst, sym}
use ulmix_i.Base.{
  ℕ, ◌+◌, ◌*◌, ◌/◌, ◌^◌, ◌<◌, ◌≡◌, ◌≢◌, ◌⊎◌, inl, inr, refl, none, some, List, [], ◌∷◌, arith,
}
use ulmix_i.Base.Int.{pos, negsuc, neg}
use ulmix_i.Base.Memory.{Mem}
use ulmix_i.Vfs.{Direntry}
use ulmix_i.Errno.{eio}
use ulmix_i.Ext2.{
  Read, hdd_read, Ext2Fs, read_superblock, ext2_probe, read_inode, read_group, read_record,
  gdt_size_sectors, fetch_inode, fetch_from, copy_inode, fetched, Store, Result, name_of, place,
  next_record, add_entry, list_block, list_inode, mount_fs, undo_mount, read_gdt, entries_loop,
  out_of_fuel, returned, stopped, ext2_get_direntries, mounted_fs, mount_at, ext2_mount,
}
use ulmix_i.Ext2.Sample.{disk, partition, items, memory}
use ulmix_i.Ext2.Inodes.{Reads, HasInode, fetch_inode-inode_place}
use ulmix_i.Ext2.Entries.{entries_of, Fresh}
use ulmix_i.Ext2.Ends.{Reached, Reached_cases, entries_loop_ends}
use ulmix_i.Ext2.Mount.{ext2_mount_error}
use ulmix_i.Ext2.Stored.{Stored, HasInodes, inode_on, first_block, ListsDir}
use ulmix_i.Ext2.Super.{superblock_on}
use ulmix_i.Ext2.Root.{IsRoot, ext2_mount-Stored}

abbrev read : ℕ → Read
read bd sectors lba = (pos sectors, λ a. disk (lba * 512 + a))

read-Reads : Reads (read 0) disk
read-Reads = record { returns = λ sectors n few. refl; gives = λ sectors n a few lt. refl }

abbrev fs : Ext2Fs
fs = record {
  superblock = superblock_on disk partition;
  partition = partition;
  block_size = 1024;
  gd_count = 1;
  group_descriptors = λ a. disk (2560 + a);
}

abbrev store : Store
store a = record {
  inode_no = 0;
  parent = 0;
  fs_info = none;
  mnt_point = 0;
  entry_inode_no = 0;
  entry_parent = 0;
  entries = [];
}

memory-Fresh : Fresh memory 0 0
memory-Fresh = record {
  not_dir = λ k. omega arith;
  not_parent = λ k. omega arith;
  null = λ k. refl;
}

store-IsRoot : IsRoot store 0
store-IsRoot = record { entry_parent = refl; parent = refl; empty = refl }

fs-mounted_fs : mounted_fs (read 0) partition (superblock_on disk partition) ≡ some fs
unfolding mounted_fs hdd_read gdt_size_sectors read_superblock
fs-mounted_fs = refl

has_root : HasInode fs 2
unfolding read_group gdt_size_sectors read_superblock
has_root = record {
  first = omega arith;
  last = omega arith;
  size = refl;
  groups = omega arith;
  whole = refl;
  described = omega arith;
  word = omega arith;
  below = omega arith;
}

has_file : HasInode fs 3
unfolding read_group gdt_size_sectors read_superblock
has_file = record {
  first = omega arith;
  last = omega arith;
  size = refl;
  groups = omega arith;
  whole = refl;
  described = omega arith;
  word = omega arith;
  below = omega arith;
}

items-Stored : Stored 1024 disk (first_block disk fs 2) 0 items
unfolding read_group read_superblock read_inode
items-Stored = (
  (refl, (refl, (refl, (refl, (refl, (refl, (refl, (refl, (refl, tt))))))))),
  omega arith,
  refl,
  omega arith,
  (
    (refl, (refl, (refl, (refl, (refl, (refl, (refl, (refl, (refl, (refl, tt)))))))))),
    omega arith,
    refl,
    omega arith,
    refl,
  ),
)

fetch_inode-inode_place_example :
    fetch_inode (read 0) 3 fs memory.garbage ≡ fetched (read_inode disk 5888)
unfolding read_group read_superblock
fetch_inode-inode_place_example =
    fetch_inode-inode_place (read 0) disk fs 3 memory.garbage read-Reads has_file

-- What is listed in the directory, by inode number.
abbrev numbers : List Direntry → List ℕ
numbers [] = []
numbers (e ∷ es) = e.inode_no ∷ numbers es

abbrev listing : Result → List ℕ
listing (returned status store') = numbers (store' 0).entries
listing (stopped how) = []

signature : (superblock_on disk partition).signature ≡ 0xef53
unfolding read_superblock
signature = refl

bounded : (inode_on disk fs 2).i_block 0 * (fs.block_size / 512) + partition.sect_offset < 2 ^ 32
unfolding read_inode read_group read_superblock
bounded = omega arith

has_items : HasInodes fs items
has_items = (has_root, (has_file, tt))

mount_listing : listing (ext2_mount 3 read memory partition 0 store) ≡ 2 ∷ 3 ∷ []
unfolding ext2_mount ext2_probe hdd_read mounted_fs gdt_size_sectors read_superblock mount_fs
    mount_at undo_mount read_gdt ext2_get_direntries list_inode list_block entries_loop name_of
    place next_record add_entry fetch_inode fetch_from copy_inode read_group read_inode read_record
mount_listing = refl

-- The block of the root directory: its records are at 0 and at 12.
abbrev root_block : Mem
root_block a = disk (8704 + a)

root_block-rec_len :
    (j : ℕ) → Reached root_block 1024 0 j → j < 1024 → (read_record root_block j).rec_len ≢ 0
unfolding read_record next_record
root_block-rec_len j r lt = go (Reached_cases r)
  where
    behind : {X : Type 0} → (j ≡ 1024) ⊎ ((1024 < 1024) × X) → ⊥
    behind (inl e) = omega (arith, e, lt)
    behind (inr (l, x)) = omega (arith, l)

    second :
        (j ≡ 12) ⊎ ((12 < 1024) × Reached root_block 1024 1024 j)
        → (read_record root_block j).rec_len ≢ 0
    second (inl e) = subst (λ i. (read_record root_block i).rec_len ≢ 0) (sym e) (omega arith)
    second (inr (l, r')) = absurd (behind (Reached_cases r'))

    go :
        (j ≡ 0) ⊎ ((0 < 1024) × Reached root_block 1024 12 j)
        → (read_record root_block j).rec_len ≢ 0
    go (inl e) = subst (λ i. (read_record root_block i).rec_len ≢ 0) (sym e) (omega arith)
    go (inr (l, r')) = second (Reached_cases r')

entries_loop_ends_example : entries_loop 257 (read 0) memory fs 0 root_block 0 0 store ≢ out_of_fuel
entries_loop_ends_example =
    entries_loop_ends 256 (read 0) memory fs 0 root_block 0 0 store root_block-rec_len refl
      (omega arith)

-- A disk that answers nothing.
abbrev broken : ℕ → Read
broken bd sectors lba = (negsuc 0, λ a. 0)

broken-ext2_mount : ext2_mount 3 broken memory partition 0 store ≡ returned (neg eio) store
unfolding ext2_mount ext2_probe hdd_read
broken-ext2_mount = refl

ext2_mount_error_example : ((store 0).fs_info ≡ none) × ((store 0).mnt_point ≡ 0)
ext2_mount_error_example =
    ext2_mount_error 3 broken memory partition 0 store store (neg eio) broken-ext2_mount refl

ext2_mount-Stored_example :
    ListsDir 0
      (mount_at fs 0 store)
      (entries_of memory (inode_on disk fs) 0 0 2 2 0 items)
      (ext2_mount 3 read memory partition 0 store)
ext2_mount-Stored_example =
    ext2_mount-Stored 3 read disk memory partition fs 0 store items read-Reads memory-Fresh
      store-IsRoot (omega arith) signature fs-mounted_fs (omega arith) (omega arith) has_root
      bounded items-Stored has_items (omega arith)
