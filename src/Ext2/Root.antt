-- ===== src/Ext2/Root.antt =====
-- kernel/fs/ext2.c: mounting a filesystem on the root directory.
use mathlib.Core.Path.{subst}
use ulmix_i.Base.{
  ◌≤◌, ◌/◌, ◌%◌, ◌*◌, ℕ, ◌+◌, ◌^◌, ◌<◌, ◌≡◌, ◌∙◌, refl, sym, ap, false, some, List, [], arith,
  length,
}
use ulmix_i.Base.Bits.{u32}
use ulmix_i.Base.Int.{is_negative}
use ulmix_i.Base.Memory.{Mem}
use ulmix_i.Devices.{Hd}
use ulmix_i.Vfs.{Direntry, Dir}
use ulmix_i.Ext2.{
  gdt_size_sectors, Read, hdd_read, Ext2Fs, Superblock, Inode, fetch_inode, fetched, Store, Memory,
  list_block, list_inode, ext2_get_direntries, mounted_fs, read_gdt, mount_at, undo_mount, mount_fs,
  ext2_mount,
}
use ulmix_i.Ext2.Inodes.{Reads, succeeds, HasInode, fetch_inode-inode_place}
use ulmix_i.Ext2.Entries.{Item, entries_of, Fresh, Knows}
use ulmix_i.Ext2.Stored.{Stored, HasInodes, inode_on, first_block, ListsDir, list_block-Stored}
use ulmix_i.Ext2.Super.{
  superblock_on, hdd_read-superblock_on, hdd_read-two, ext2_probe-superblock_on,
}

-- A directory that is its own parent, as is the root, and has not been listed.
pub record IsRoot (store : Store) (dir : ℕ) : Type 0 where
  pub entry_parent : (store dir).entry_parent ≡ dir
  pub parent : (store dir).parent ≡ dir
  pub empty : (store dir).entries ≡ []

get_direntries-list_block :
    (fuel : ℕ) (read : ℕ → Read) (memory : Memory) (fs : Ext2Fs) (inode : Inode) (dir : ℕ)
    (store : Store)
    → (store dir).entries ≡ []
    → (store dir).fs_info ≡ some fs
    → (store (store dir).entry_parent).fs_info ≡ some fs
    → fetch_inode (read fs.partition.bd) (store dir).entry_inode_no fs memory.garbage
      ≡ fetched inode
    → ext2_get_direntries fuel read memory dir store
      ≡ list_block fuel (read fs.partition.bd) memory fs dir inode store
unfolding ext2_get_direntries list_inode
get_direntries-list_block fuel read memory fs inode dir store e i p f =
    rw (e, i, p, f, ext2_get_direntries, list_inode) refl

mount_at_dir :
    (fs : Ext2Fs) (dir : ℕ) (store : Store)
    → mount_at fs dir store dir
      ≡ record (store dir) { inode_no = 2; fs_info = some fs; mnt_point = dir; entry_inode_no = 2 }
unfolding mount_at
mount_at_dir fs dir store = ground arith

mounted_root :
    (fuel : ℕ) (read : ℕ → Read) (memory : Memory) (fs : Ext2Fs) (inode : Inode) (dir : ℕ)
    (store : Store)
    → IsRoot store dir
    → fetch_inode (read fs.partition.bd) 2 fs memory.garbage ≡ fetched inode
    → ext2_get_direntries fuel read memory dir (mount_at fs dir store)
      ≡ list_block fuel (read fs.partition.bd) memory fs dir inode (mount_at fs dir store)
mounted_root fuel read memory fs inode dir store root f =
    get_direntries-list_block fuel read memory fs inode dir (mount_at fs dir store)
      (ap (λ (d : Dir Ext2Fs). d.entries) here ∙ root.empty) info
      (ap (λ a. (mount_at fs dir store a).fs_info)
          (ap (λ (d : Dir Ext2Fs). d.entry_parent) here ∙ root.entry_parent)
        ∙ info)
      (ap (λ n. fetch_inode (read fs.partition.bd) n fs memory.garbage)
          (ap (λ (d : Dir Ext2Fs). d.entry_inode_no) here)
        ∙ f)
  where
    here : mount_at fs dir store dir ≡ record (store dir) {
      inode_no = 2;
      fs_info = some fs;
      mnt_point = dir;
      entry_inode_no = 2;
    }
    here = mount_at_dir fs dir store

    info : (mount_at fs dir store dir).fs_info ≡ some fs
    info = ap (λ (d : Dir Ext2Fs). d.fs_info) here

whole_sectors : (log : ℕ) → u32 (0x400 * 2 ^ log) % 512 ≡ 0
whole_sectors log = omega arith

mounted_fs_inv :
    (read : Read) (partition : Hd) (sb : Superblock) (fs : Ext2Fs)
    → mounted_fs read partition sb ≡ some fs
    → (fs.partition ≡ partition) × (fs.block_size ≡ u32 (0x400 * 2 ^ sb.block_size_log))
unfolding mounted_fs
mounted_fs_inv read partition sb fs e = (ground arith, ground arith)

mount_root_Knows :
    (fs : Ext2Fs) (dir : ℕ) (store : Store)
    → IsRoot store dir
    → Knows (mount_at fs dir store) dir dir 2 2
mount_root_Knows fs dir store root = record {
  own = no;
  up = ap (λ (d : Dir Ext2Fs). d.parent) (mount_at_dir fs dir store) ∙ root.parent;
  parents = no;
}
  where
    no : (mount_at fs dir store dir).inode_no ≡ 2
    no = ap (λ (d : Dir Ext2Fs). d.inode_no) (mount_at_dir fs dir store)

mount_fs-ListsDir :
    (fuel : ℕ) (read : ℕ → Read) (disk : Mem) (memory : Memory) (fs : Ext2Fs) (dir : ℕ)
    (store : Store) (es : List Direntry)
    → Reads (read fs.partition.bd) disk
    → fs.gd_count ≤ 2 ^ 20
    → ListsDir dir
        (mount_at fs dir store)
        es
        (ext2_get_direntries fuel read memory dir (mount_at fs dir store))
    → ListsDir dir (mount_at fs dir store) es (mount_fs fuel read memory (some fs) dir store)
unfolding mount_fs undo_mount read_gdt hdd_read gdt_size_sectors
mount_fs-ListsDir fuel read disk memory fs dir store es r groups (store', eq, kept) =
    (store', rw (good, eq, mount_fs, undo_mount) refl, kept)
  where
    few : gdt_size_sectors fs.gd_count ≤ 65536
    few = ground arith

    good : is_negative (read_gdt (read fs.partition.bd) fs) ≡ false
    good = succeeds r (gdt_size_sectors fs.gd_count) _ few

ext2_mount-mount_fs :
    (fuel : ℕ) (read : ℕ → Read) (disk : Mem) (memory : Memory) (partition : Hd) (fs : Ext2Fs)
    (dir : ℕ) (store : Store)
    → Reads (read partition.bd) disk
    → 2 + partition.sect_offset < 2 ^ 32
    → (superblock_on disk partition).signature ≡ 0xef53
    → mounted_fs (read partition.bd) partition (superblock_on disk partition) ≡ some fs
    → ext2_mount fuel read memory partition dir store
      ≡ mount_fs fuel read memory (some fs) dir store
unfolding ext2_mount
ext2_mount-mount_fs fuel read disk memory partition fs dir store r small sig described =
    rw
      (
        ext2_probe-superblock_on (read partition.bd) disk partition r small sig,
        hdd_read-two (read partition.bd) disk partition r,
        hdd_read-superblock_on (read partition.bd) disk partition r small,
        described,
        ext2_mount,
      )
      refl

-- ext2_mount() at the root directory of the machine, with a partition whose superblock, group descriptors,
-- inode 2 and inodes of the entries are in order, succeeds: the directory becomes the mount point of the
-- filesystem, with inode 2, and has exactly the entries that the first block of that inode holds on the
-- disk, with their names, inode numbers and types, in their order. There is fuel for more than the entries;
-- a block has at most 32 MB, and there are at most 2 ^ 20 block groups.
pub ext2_mount-Stored :
    (fuel : ℕ) (read : ℕ → Read) (disk : Mem) (memory : Memory) (partition : Hd) (fs : Ext2Fs)
    (dir : ℕ) (store : Store) (its : List Item)
    → Reads (read partition.bd) disk
    → Fresh memory dir dir
    → IsRoot store dir
    → 2 + partition.sect_offset < 2 ^ 32
    → (superblock_on disk partition).signature ≡ 0xef53
    → mounted_fs (read partition.bd) partition (superblock_on disk partition) ≡ some fs
    → fs.block_size ≤ 2 ^ 25
    → fs.gd_count ≤ 2 ^ 20
    → HasInode fs 2
    → (inode_on disk fs 2).i_block 0 * (fs.block_size / 512) + partition.sect_offset < 2 ^ 32
    → Stored fs.block_size disk (first_block disk fs 2) 0 its
    → HasInodes fs its
    → length its < fuel
    → ListsDir dir
        (mount_at fs dir store)
        (entries_of memory (inode_on disk fs) dir dir 2 2 0 its)
        (ext2_mount fuel read memory partition dir store)
ext2_mount-Stored fuel read disk memory partition fs dir store its r fresh root small sig described
      room groups has bounded st hass enough =
    subst
      (ListsDir dir (mount_at fs dir store)
        (entries_of memory (inode_on disk fs) dir dir 2 2 0 its))
      (sym (ext2_mount-mount_fs fuel read disk memory partition fs dir store r small sig described))
      (mount_fs-ListsDir fuel read disk memory fs dir store _ r' groups (
        subst
          (ListsDir dir (mount_at fs dir store)
            (entries_of memory (inode_on disk fs) dir dir 2 2 0 its))
          (sym (
            mounted_root fuel read memory fs (inode_on disk fs 2) dir store root
              (fetch_inode-inode_place (read fs.partition.bd) disk fs 2 memory.garbage r' has)))
          (list_block-Stored fuel (read fs.partition.bd) disk memory fs dir dir 2 2
            (mount_at fs dir store) (inode_on disk fs 2) its r' fresh
            (mount_root_Knows fs dir store root)
            (omega (arith, inv.1, whole_sectors (superblock_on disk partition).block_size_log)) room
            (omega (arith, bounded, ap (λ (p : Hd). p.sect_offset) inv.0)) st hass enough)))
  where
    inv :
        (fs.partition ≡ partition)
        × (fs.block_size ≡ u32 (0x400 * 2 ^ (superblock_on disk partition).block_size_log))
    inv = mounted_fs_inv (read partition.bd) partition (superblock_on disk partition) fs described

    r' : Reads (read fs.partition.bd) disk
    r' = subst (λ (p : Hd). Reads (read p.bd) disk) (sym inv.0) r
