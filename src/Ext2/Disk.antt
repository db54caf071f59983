-- ===== src/Ext2/Disk.antt =====
-- kernel/fs/ext2.c: reading the partition, ext2_probe() and fetch_inode().
use ulmix_i.Base.{ℕ, ◌+◌, ◌*◌, ◌/◌, ◌%◌, ◌||◌, ltb, leb, ◌==◌, if◌then◌else◌}
use ulmix_i.Base.Bits.{u32, sub32}
use ulmix_i.Base.Int.{ℤ, pos, neg, is_negative, lt_nat}
use ulmix_i.Base.Memory.{Mem}
use ulmix_i.Devices.{Hd}
use ulmix_i.Errno.{enoent, eio, enotsup}
use ulmix_i.Ext2.Layout.{Superblock, Inode, read_superblock, read_inode, read_group}

-- `fops.read` of the disk: what it returns, and what it leaves in the buffer.
abbrev pub Read : Type 0
Read = (sectors lba : ℕ) → ℤ × Mem

unfoldable pub hdd_read : Read → Hd → (sectors lba : ℕ) → ℤ × Mem
hdd_read read partition sectors lba = read sectors (u32 (lba + partition.sect_offset))

abbrev pub io_block_size : ℕ
io_block_size = 512

unfoldable pub ext2_probe : Read → Hd → ℤ
unfolding hdd_read
ext2_probe read partition =
    let (n, sb) = hdd_read read partition 2 2 in
    if lt_nat n 2
    then neg eio
    else if (read_superblock sb).signature == 0xef53
    then pos 0
    else neg enotsup

-- struct ext2fs_struct. The descriptors are the bytes of their table.
pub record Ext2Fs : Type 0 where
  pub superblock : Superblock
  pub partition : Hd
  pub block_size : ℕ
  pub gd_count : ℕ
  pub group_descriptors : Mem

-- The sectors of the descriptors' table, of 32 bytes each.
unfoldable pub gdt_size_sectors : (gd_count : ℕ) → ℕ
gdt_size_sectors gd_count =
    let gdt_size = u32 (gd_count * 32) in
    if gdt_size % io_block_size == 0 then gdt_size / io_block_size else gdt_size / io_block_size + 1

-- What fetch_inode() returns, with the inode it leaves; `undefined` is a division by 0, a read behind the
-- descriptors, or a write behind the inode.
pub data Fetched : Type 0 where
  fetched : Inode → Fetched
  refused : ℤ → Fetched
  undefined : Fetched

-- The place of the inode in the buffer: `memcpy(inode, inode_buf + …, inode_size)`, over `old`.
unfoldable pub copy_inode : (inode_size index : ℕ) → (buf old : Mem) → Mem
copy_inode inode_size index buf old a =
    if ltb a inode_size then buf (index * inode_size + a) else old a

-- The second half of fetch_inode(): the sector is read, and the inode copied from it.
unfoldable pub fetch_from : Read → Hd → (inode_size index lba : ℕ) → (old : Mem) → Fetched
unfolding hdd_read copy_inode
fetch_from read partition inode_size index lba old =
    let (status, inode_buf) = hdd_read read partition 1 lba in
    if is_negative status
    then refused status
    else if ltb 128 inode_size
    then undefined
    else fetched (read_inode (copy_inode inode_size index inode_buf old) 0)

unfoldable pub fetch_inode : Read → (inode_no : ℕ) → Ext2Fs → (old : Mem) → Fetched
unfolding fetch_from gdt_size_sectors
fetch_inode read inode_no fs old =
    let sb = fs.superblock in
    let n = sub32 inode_no 1 in
    let block_group_no = n / sb.inodes_per_group in
    let inodes_per_disk_sector = io_block_size / sb.inode_size in
    let disk_sector_offset = n % sb.inodes_per_group / inodes_per_disk_sector in
    let inode_table_lba = u32 (
      (read_group fs.group_descriptors block_group_no).bg_inode_table
      * (fs.block_size / io_block_size)) in
    if ltb sb.total_inodes inode_no
    then refused (neg enoent)
    else if sb.inodes_per_group == 0 || inodes_per_disk_sector == 0 || sb.inode_size == 0
    then undefined
    else if leb (gdt_size_sectors fs.gd_count * 16) block_group_no
    then undefined
    else fetch_from read fs.partition sb.inode_size (n % inodes_per_disk_sector)
        (u32 (inode_table_lba + disk_sector_offset)) old
