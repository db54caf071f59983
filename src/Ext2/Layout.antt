-- ===== src/Ext2/Layout.antt =====
-- kernel/fs/ext2.c: the structures on the disk, read from their bytes.
use ulmix_i.Base.{ℕ, ◌+◌, ◌*◌, ltb, if◌then◌else◌}
use ulmix_i.Base.Memory.{Mem}
use ulmix_i.Devices.{le32}

abbrev pub le16 : Mem → ℕ → ℕ
le16 m a = m a + 0x100 * m (a + 1)

-- sb_t, without the texts of the extended fields.
pub record Superblock : Type 0 where
  pub total_inodes : ℕ
  pub total_blocks : ℕ
  pub root_blocks : ℕ
  pub unalloc_blocks : ℕ
  pub unalloc_inodes : ℕ
  pub superblock : ℕ
  pub block_size_log : ℕ
  pub fragment_size_log : ℕ
  pub blocks_per_group : ℕ
  pub fragments_per_group : ℕ
  pub inodes_per_group : ℕ
  pub last_mount : ℕ
  pub last_write : ℕ
  pub mounts_since_check : ℕ
  pub mounts_remaining : ℕ
  pub signature : ℕ
  pub fs_state : ℕ
  pub error_action : ℕ
  pub minor_version : ℕ
  pub last_check : ℕ
  pub check_interval : ℕ
  pub creator_os : ℕ
  pub major_version : ℕ
  pub reserved_user : ℕ
  pub reserved_group : ℕ
  pub first_inode_non_reserved : ℕ
  pub inode_size : ℕ

unfoldable pub read_superblock : Mem → Superblock
read_superblock m = record {
  total_inodes = le32 m 0;
  total_blocks = le32 m 4;
  root_blocks = le32 m 8;
  unalloc_blocks = le32 m 12;
  unalloc_inodes = le32 m 16;
  superblock = le32 m 20;
  block_size_log = le32 m 24;
  fragment_size_log = le32 m 28;
  blocks_per_group = le32 m 32;
  fragments_per_group = le32 m 36;
  inodes_per_group = le32 m 40;
  last_mount = le32 m 44;
  last_write = le32 m 48;
  mounts_since_check = le16 m 52;
  mounts_remaining = le16 m 54;
  signature = le16 m 56;
  fs_state = le16 m 58;
  error_action = le16 m 60;
  minor_version = le16 m 62;
  last_check = le32 m 64;
  check_interval = le32 m 68;
  creator_os = le32 m 72;
  major_version = le32 m 76;
  reserved_user = le16 m 80;
  reserved_group = le16 m 82;
  first_inode_non_reserved = le32 m 84;
  inode_size = le16 m 88;
}

-- EXT2_N_BLOCKS.
abbrev pub n_blocks : ℕ
n_blocks = 15

-- struct inode_struct, 128 bytes, without the fields that depend on the operating system.
pub record Inode : Type 0 where
  pub i_mode : ℕ
  pub i_uid : ℕ
  pub i_size : ℕ
  pub i_atime : ℕ
  pub i_ctime : ℕ
  pub i_mtime : ℕ
  pub i_dtime : ℕ
  pub i_gid : ℕ
  pub i_links_count : ℕ
  pub i_blocks : ℕ
  pub i_flags : ℕ
  pub i_block : ℕ → ℕ
  pub i_generation : ℕ
  pub i_file_acl : ℕ
  pub i_dir_acl : ℕ
  pub i_faddr : ℕ

-- The inode whose bytes stand from `a` on.
unfoldable pub read_inode : Mem → ℕ → Inode
read_inode m a = record {
  i_mode = le16 m a;
  i_uid = le16 m (a + 2);
  i_size = le32 m (a + 4);
  i_atime = le32 m (a + 8);
  i_ctime = le32 m (a + 12);
  i_mtime = le32 m (a + 16);
  i_dtime = le32 m (a + 20);
  i_gid = le16 m (a + 24);
  i_links_count = le16 m (a + 26);
  i_blocks = le32 m (a + 28);
  i_flags = le32 m (a + 32);
  i_block = λ i. if ltb i n_blocks then le32 m (a + (40 + 4 * i)) else 0;
  i_generation = le32 m (a + 100);
  i_file_acl = le32 m (a + 104);
  i_dir_acl = le32 m (a + 108);
  i_faddr = le32 m (a + 112);
}

-- struct gd_struct, of which each takes 32 bytes.
pub record GroupDescriptor : Type 0 where
  pub bg_block_bitmap : ℕ
  pub bg_inode_bitmap : ℕ
  pub bg_inode_table : ℕ
  pub bg_free_blocks_count : ℕ
  pub bg_free_inodes_count : ℕ
  pub bg_used_dirs_count : ℕ

unfoldable pub read_group : Mem → (index : ℕ) → GroupDescriptor
read_group m index = record {
  bg_block_bitmap = le32 m (32 * index);
  bg_inode_bitmap = le32 m (32 * index + 4);
  bg_inode_table = le32 m (32 * index + 8);
  bg_free_blocks_count = le16 m (32 * index + 12);
  bg_free_inodes_count = le16 m (32 * index + 14);
  bg_used_dirs_count = le16 m (32 * index + 16);
}

-- struct ext2_direntry_struct, 8 bytes.
pub record DirRecord : Type 0 where
  pub inode : ℕ
  pub rec_len : ℕ
  pub name_len : ℕ
  pub file_type : ℕ

unfoldable pub read_record : Mem → ℕ → DirRecord
read_record m a = record {
  inode = le32 m a;
  rec_len = le16 m (a + 4);
  name_len = m (a + 6);
  file_type = m (a + 7);
}
