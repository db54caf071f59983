-- ===== src/Ext2/Super.antt =====
-- kernel/fs/ext2.c: the superblock on the disk, as ext2_probe() and ext2_mount() read it.
use ulmix_i.Base.{ℕ, ◌+◌, ◌*◌, ◌^◌, ◌<◌, ◌≡◌, ◌∙◌, refl, ap, true, false, arith, ◌==◌}
use ulmix_i.Base.Bits.{u32}
use ulmix_i.Base.Int.{pos, lt_nat}
use ulmix_i.Base.Memory.{Mem}
use ulmix_i.Devices.{Hd}
use ulmix_i.Ext2.{Read, hdd_read, Superblock, read_superblock, ext2_probe}
use ulmix_i.Ext2.Inodes.{Reads, half, word}

-- The superblock that the partition has on the disk.
abbrev pub superblock_on : (disk : Mem) → Hd → Superblock
superblock_on disk partition = read_superblock (λ a. disk ((2 + partition.sect_offset) * 512 + a))

read_superblock_same :
    (buf at_disk : Mem)
    → ((j : ℕ) → j < 128 → buf (0 + j) ≡ at_disk (0 + j))
    → read_superblock buf ≡ read_superblock at_disk
unfolding read_superblock
read_superblock_same buf at_disk same = λ k. record {
  total_inodes = word buf at_disk 0 0 same 0 0 0 refl refl (omega arith) k;
  total_blocks = word buf at_disk 0 0 same 4 4 4 refl refl (omega arith) k;
  root_blocks = word buf at_disk 0 0 same 8 8 8 refl refl (omega arith) k;
  unalloc_blocks = word buf at_disk 0 0 same 12 12 12 refl refl (omega arith) k;
  unalloc_inodes = word buf at_disk 0 0 same 16 16 16 refl refl (omega arith) k;
  superblock = word buf at_disk 0 0 same 20 20 20 refl refl (omega arith) k;
  block_size_log = word buf at_disk 0 0 same 24 24 24 refl refl (omega arith) k;
  fragment_size_log = word buf at_disk 0 0 same 28 28 28 refl refl (omega arith) k;
  blocks_per_group = word buf at_disk 0 0 same 32 32 32 refl refl (omega arith) k;
  fragments_per_group = word buf at_disk 0 0 same 36 36 36 refl refl (omega arith) k;
  inodes_per_group = word buf at_disk 0 0 same 40 40 40 refl refl (omega arith) k;
  last_mount = word buf at_disk 0 0 same 44 44 44 refl refl (omega arith) k;
  last_write = word buf at_disk 0 0 same 48 48 48 refl refl (omega arith) k;
  mounts_since_check = half buf at_disk 0 0 same 52 52 52 refl refl (omega arith) k;
  mounts_remaining = half buf at_disk 0 0 same 54 54 54 refl refl (omega arith) k;
  signature = half buf at_disk 0 0 same 56 56 56 refl refl (omega arith) k;
  fs_state = half buf at_disk 0 0 same 58 58 58 refl refl (omega arith) k;
  error_action = half buf at_disk 0 0 same 60 60 60 refl refl (omega arith) k;
  minor_version = half buf at_disk 0 0 same 62 62 62 refl refl (omega arith) k;
  last_check = word buf at_disk 0 0 same 64 64 64 refl refl (omega arith) k;
  check_interval = word buf at_disk 0 0 same 68 68 68 refl refl (omega arith) k;
  creator_os = word buf at_disk 0 0 same 72 72 72 refl refl (omega arith) k;
  major_version = word buf at_disk 0 0 same 76 76 76 refl refl (omega arith) k;
  reserved_user = half buf at_disk 0 0 same 80 80 80 refl refl (omega arith) k;
  reserved_group = half buf at_disk 0 0 same 82 82 82 refl refl (omega arith) k;
  first_inode_non_reserved = word buf at_disk 0 0 same 84 84 84 refl refl (omega arith) k;
  inode_size = half buf at_disk 0 0 same 88 88 88 refl refl (omega arith) k;
}

pub hdd_read-superblock_on :
    (read : Read) (disk : Mem) (partition : Hd)
    → Reads read disk
    → 2 + partition.sect_offset < 2 ^ 32
    → read_superblock (hdd_read read partition 2 2).1 ≡ superblock_on disk partition
unfolding hdd_read
hdd_read-superblock_on read disk partition r small =
    read_superblock_same _ (λ a. disk ((2 + partition.sect_offset) * 512 + a))
      (λ j lt.
        r.gives 2 (2 + partition.sect_offset) (0 + j) (omega arith) (omega arith)
        ∙ ap (λ l. disk (l * 512 + (0 + j))) {x = u32 (2 + partition.sect_offset)}
            {y = 2 + partition.sect_offset} (omega arith))

pub hdd_read-two :
    (read : Read) (disk : Mem) (partition : Hd)
    → Reads read disk
    → lt_nat (hdd_read read partition 2 2).0 2 ≡ false
unfolding hdd_read
hdd_read-two read disk partition r =
    ap (λ z. lt_nat z 2) (r.returns 2 (2 + partition.sect_offset) (omega arith))

pub ext2_probe-superblock_on :
    (read : Read) (disk : Mem) (partition : Hd)
    → Reads read disk
    → 2 + partition.sect_offset < 2 ^ 32
    → (superblock_on disk partition).signature ≡ 0xef53
    → ext2_probe read partition ≡ pos 0
unfolding ext2_probe hdd_read
ext2_probe-superblock_on read disk partition r small sig =
    rw (r.returns 2 (2 + partition.sect_offset) (omega arith), magic, ext2_probe) refl
  where
    magic :
        ((read_superblock (read 2 (u32 (2 + partition.sect_offset))).1).signature == 0xef53) ≡ true
    magic = ground (
      arith,
      sig,
      ap (λ (b : Superblock). b.signature) (hdd_read-superblock_on read disk partition r small),
    )
