-- ===== src/Ext2.antt =====
-- kernel/fs/ext2.c: listing a directory and mounting an ext2 partition. The disk's fops.read is a
-- parameter. Directories stand in a store by address, with 0 for NULL; the addresses that kmalloc() returns
-- and what its memory held are parameters, and it is taken to succeed. ASSERT is that of the debug build.
mod Layout
mod Disk
pub mod Inodes
pub mod Entries
pub mod Ends
pub mod Mount
pub mod Stored
pub mod Super
pub mod Root
pub mod Sample
mod Tests
pub use Layout.{Superblock, Inode, GroupDescriptor, DirRecord, le16, n_blocks}
unfoldable pub use Layout.{read_superblock, read_inode, read_group, read_record}
pub use Disk.{Read, io_block_size, Ext2Fs, Fetched, fetched, refused, undefined}
unfoldable pub use Disk.{
  hdd_read, ext2_probe, gdt_size_sectors, copy_inode, fetch_from, fetch_inode,
}
use ulmix_i.Base.{
  ℕ, zero, suc, ◌+◌, ◌-◌, ◌*◌, ◌/◌, ◌%◌, ◌^◌, Bool, true, false, not, ◌&&◌, ◌||◌, Option, none,
  some, List, [], ◌∷◌, ltb, leb, ◌==◌, if◌then◌else◌,
}
use ulmix_i.Base.Bits.{u32}
use ulmix_i.Base.Int.{ℤ, pos, is_negative, lt_nat}
use ulmix_i.Base.Memory.{Mem}
use ulmix_i.Devices.{Hd}
use ulmix_i.Vfs.{Direntry, Dir, Dirs, update}

abbrev pub Store : Type 0
Store = Dirs Ext2Fs

-- What kmalloc() gives for the k-th entry of a listing: the address for its directory, and the pointer that
-- its memory happens to hold as `payload`; and what the memory of an inode holds. Nothing sets them to 0.
pub record Memory : Type 0 where
  pub node : ℕ → ℕ
  pub payload : ℕ → ℕ
  pub garbage : Mem

-- The name of a directory entry.
pub name_of : ℕ → Mem → ℕ → List ℕ
name_of zero buf a = []
name_of (suc n) buf a = buf a ∷ name_of n buf (a + 1)

-- `current_entry->directory`, whether its `payload` is set, and the store with a directory that is new.
pub place : Memory → (k dir : ℕ) → DirRecord → Store → ℕ × Bool × Store
place memory k dir r store =
    let d = store dir in
    if r.file_type == 2
    then (if r.inode == d.inode_no
        then (dir, true, store)
        else if r.inode == (store d.parent).inode_no
        then (d.parent, true, store)
        else (
          memory.node k,
          false,
          update store (memory.node k) (record {
            inode_no = r.inode;
            parent = dir;
            fs_info = d.fs_info;
            mnt_point = d.mnt_point;
            entry_inode_no = r.inode;
            entry_parent = dir;
            entries = [];
          }),
        ))
    else (0, false, store)

-- What the loop over a block leaves: the entries, or how it ends otherwise. `asserted` is the ASSERT on
-- get_direntry(); `undefined` a wild access.
pub data Listed : Type 0 where
  listed : List Direntry → Store → Listed
  asserted wild out_of_fuel : Listed

abbrev pub cons_listed : Direntry → Listed → Listed
cons_listed e (listed es store) = listed (e ∷ es) store
cons_listed e asserted = asserted
cons_listed e wild = wild
cons_listed e out_of_fuel = out_of_fuel

-- `i += rec_len; i += (i % 4) ? 4 - (i % 4) : 0;`
pub next_record : (i rec_len : ℕ) → ℕ
next_record i rec_len = let i' = i + rec_len in if i' % 4 == 0 then i' else i' + (4 - i' % 4)

-- What get_direntry() sets in an entry.
abbrev pub entry_of : Inode → DirRecord → (name : List ℕ) → (directory : ℕ) → Direntry
entry_of inode r name directory = record {
  type = inode.i_mode / 2 ^ 12 % 2 ^ 4 * 2 ^ 12;
  name = name;
  inode_no = r.inode;
  directory = directory;
}

-- get_direntry() on what direntry_get_inode() fetches, and the rest of the loop.
pub add_entry : Fetched → DirRecord → (name : List ℕ) → (directory : ℕ) → Listed → Listed
add_entry (fetched inode) r name directory rest = cons_listed (entry_of inode r name directory) rest
add_entry (refused status) r name directory rest = asserted
add_entry undefined r name directory rest = wild

-- The loop of ext2_get_direntries(), from offset `i` on.
pub entries_loop : ℕ → Read → Memory → Ext2Fs → (dir : ℕ) → (buf : Mem) → (i k : ℕ) → Store → Listed
unfolding name_of place next_record add_entry
entries_loop zero read memory fs dir buf i k store = out_of_fuel
entries_loop (suc fuel) read memory fs dir buf i k store =
    let r = read_record buf i in
    let (directory, payload_set, store') = place memory k dir r store in
    let rest = entries_loop fuel read memory fs dir buf (next_record i r.rec_len) (k + 1) store' in
    if not (ltb i fs.block_size)
    then listed [] store
    else if not payload_set && not (memory.payload k == 0)
    then wild
    else add_entry (fetch_inode read r.inode fs memory.garbage) r (name_of r.name_len buf (i + 8))
        directory rest

-- What a function of the filesystem returns; the other cases are those of `Listed`.
pub data Result : Type 0 where
  returned : ℤ → Store → Result
  stopped : Listed → Result

abbrev pub list_into : (dir : ℕ) → Listed → Result
list_into dir (listed es store) =
    returned (pos 0) (update store dir (record (store dir) { entries = es }))
list_into dir other = stopped other

-- The first block of the directory, and the loop over it.
pub list_block : ℕ → Read → Memory → Ext2Fs → (dir : ℕ) → Inode → Store → Result
unfolding entries_loop
list_block fuel read memory fs dir inode store =
    let (status, buf) =
      hdd_read read fs.partition (fs.block_size / io_block_size)
        (u32 (inode.i_block 0 * (fs.block_size / io_block_size))) in
    if ltb 0 fs.block_size && is_negative status
    then returned status store
    else list_into dir (entries_loop fuel read memory fs dir buf 0 0 store)

abbrev no_entries : List Direntry → Bool
no_entries [] = true
no_entries (e ∷ es) = false

-- The inode of a directory is not checked for NULL, which is what direntry_get_inode() returns on failure.
pub list_inode : ℕ → Read → Memory → Ext2Fs → (dir : ℕ) → Fetched → Store → Result
unfolding list_block
list_inode fuel read memory fs dir (fetched inode) store =
    list_block fuel read memory fs dir inode store
list_inode fuel read memory fs dir (refused status) store = stopped wild
list_inode fuel read memory fs dir undefined store = stopped wild

-- The inode of the directory is that of its entry, in the filesystem of the directory which holds the entry;
-- the block is read from the filesystem of the directory itself.
pub ext2_get_direntries : ℕ → (read : ℕ → Read) → Memory → (dir : ℕ) → Store → Result
unfolding list_inode
ext2_get_direntries fuel read memory dir store =
    let d = store dir in
    if not (no_entries d.entries) then returned (pos 0) store else elim d.fs_info [
      | none ↦ stopped asserted
      | some fs ↦ elim (store d.entry_parent).fs_info [
        | none ↦ stopped wild
        | some fs' ↦
            list_inode fuel (read fs.partition.bd) memory fs dir
              (fetch_inode (read fs'.partition.bd) d.entry_inode_no fs' memory.garbage) store
      ]
    ]

-- The shift and the divisions of ext2_mount(): `none` where they are not defined.
unfoldable pub mounted_fs : Read → Hd → Superblock → Option Ext2Fs
mounted_fs read partition sb =
    let block_size = u32 (0x400 * 2 ^ sb.block_size_log) in
    let gd_count = u32 (sb.total_blocks / sb.blocks_per_group + 1) in
    let gdt_lba = u32 ((if block_size == 0x400 then 2 else 1) * (block_size / io_block_size)) in
    if leb 32 sb.block_size_log || sb.blocks_per_group == 0
    then none
    else some (record {
      superblock = sb;
      partition = partition;
      block_size = block_size;
      gd_count = gd_count;
      group_descriptors = (hdd_read read partition (gdt_size_sectors gd_count) gdt_lba).1;
    })

-- What reading the group descriptors returns.
pub read_gdt : Read → Ext2Fs → ℤ
read_gdt read fs =
    (hdd_read read fs.partition (gdt_size_sectors fs.gd_count)
      (u32 ((if fs.block_size == 0x400 then 2 else 1) * (fs.block_size / io_block_size)))).0

-- The directory as a mount point.
pub mount_at : Ext2Fs → (dir : ℕ) → Store → Store
mount_at fs dir store =
    update store dir
      (record (store dir) { inode_no = 2; fs_info = some fs; mnt_point = dir; entry_inode_no = 2 })

-- `no_mount_unmount` and what comes before it; `d` is the directory as it was.
pub undo_mount : Dir Ext2Fs → (dir : ℕ) → Result → Result
undo_mount d dir (returned status store) =
    if is_negative status
    then returned status
        (update store dir (record (store dir) { fs_info = d.fs_info; mnt_point = d.mnt_point }))
    else returned status store
undo_mount d dir (stopped how) = stopped how

-- From the group descriptors on.
pub mount_fs : ℕ → (read : ℕ → Read) → Memory → Option Ext2Fs → (dir : ℕ) → Store → Result
unfolding ext2_get_direntries mounted_fs read_gdt mount_at undo_mount
mount_fs fuel read memory none dir store = stopped wild
mount_fs fuel read memory (some fs) dir store =
    let status = read_gdt (read fs.partition.bd) fs in
    if is_negative status
    then returned status store
    else undo_mount (store dir) dir
        (ext2_get_direntries fuel read memory dir (mount_at fs dir store))

-- The superblock is read again; what that returns is the result when it is less than two sectors.
pub ext2_mount : ℕ → (read : ℕ → Read) → Memory → Hd → (dir : ℕ) → Store → Result
unfolding mount_fs
ext2_mount fuel read memory partition dir store =
    let status = ext2_probe (read partition.bd) partition in
    let (n, sb) = hdd_read (read partition.bd) partition 2 2 in
    if is_negative status
    then returned status store
    else if lt_nat n 2
    then returned n store
    else mount_fs fuel read memory (mounted_fs (read partition.bd) partition (read_superblock sb))
        dir store
