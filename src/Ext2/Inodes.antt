-- ===== src/Ext2/Inodes.antt =====
-- kernel/fs/ext2.c: fetch_inode() reads the bytes of the inode that it is asked for.
use mathlib.Core.Path.{fun_ext}
use native.Mathlib.Nat.{mod-lt, mod-mod_of_dvd, dvd_of_mod-eq-zero}
use ulmix_i.Base.{
  ℕ, ◌+◌, ◌-◌, ◌*◌, ◌/◌, ◌%◌, ◌^◌, ◌<◌, ◌≤◌, ◌≡◌, ◌≢◌, ◌∙◌, inl, inr, refl, sym, ap, false, arith,
  ltb, if◌then◌else◌, Bool-cases,
}
use ulmix_i.Base.Bits.{u32, sub32}
use ulmix_i.Base.Int.{pos, is_negative}
use ulmix_i.Base.Memory.{Mem}
use ulmix_i.Devices.{Hd, le32}
use ulmix_i.Ext2.{
  Read, hdd_read, Ext2Fs, Inode, read_inode, read_group, le16, n_blocks, gdt_size_sectors,
  copy_inode, fetch_from, fetch_inode, fetched,
}

-- The same bytes give the same inode.
module _ (m m' : Mem) (a a' : ℕ) (same : (j : ℕ) → j < 128 → m (a + j) ≡ m' (a' + j)) where
  byte : (x x' j : ℕ) → x ≡ a + j → x' ≡ a' + j → j < 128 → m x ≡ m' x'
  byte x x' j e e' lt = ap m e ∙ same j lt ∙ ap m' (sym e')

  pub half : (x x' j : ℕ) → x ≡ a + j → x' ≡ a' + j → j + 1 < 128 → le16 m x ≡ le16 m' x'
  half x x' j e e' lt = omega (
    arith,
    byte x x' j e e' (omega arith),
    byte (x + 1) (x' + 1) (j + 1) (omega arith) (omega arith) (omega arith),
  )

  pub word : (x x' j : ℕ) → x ≡ a + j → x' ≡ a' + j → j + 3 < 128 → le32 m x ≡ le32 m' x'
  word x x' j e e' lt = omega (
    arith,
    byte x x' j e e' (omega arith),
    byte (x + 1) (x' + 1) (j + 1) (omega arith) (omega arith) (omega arith),
    byte (x + 2) (x' + 2) (j + 2) (omega arith) (omega arith) (omega arith),
    byte (x + 3) (x' + 3) (j + 3) (omega arith) (omega arith) (omega arith),
  )

  pointer :
      (i : ℕ)
      → (if ltb i n_blocks then le32 m (a + (40 + 4 * i)) else 0)
        ≡ (if ltb i n_blocks then le32 m' (a' + (40 + 4 * i)) else 0)
  pointer i = elim (Bool-cases (ltb i n_blocks)) [
    | inl t ↦
        rw t (word (a + (40 + 4 * i)) (a' + (40 + 4 * i)) (40 + 4 * i) refl refl (ground arith))
    | inr t ↦ rw t refl
  ]

  pub read_inode_same : read_inode m a ≡ read_inode m' a'
  unfolding read_inode
  read_inode_same = λ k. record {
    i_mode = half a a' 0 (omega arith) (omega arith) (omega arith) k;
    i_uid = half (a + 2) (a' + 2) 2 refl refl (omega arith) k;
    i_size = word (a + 4) (a' + 4) 4 refl refl (omega arith) k;
    i_atime = word (a + 8) (a' + 8) 8 refl refl (omega arith) k;
    i_ctime = word (a + 12) (a' + 12) 12 refl refl (omega arith) k;
    i_mtime = word (a + 16) (a' + 16) 16 refl refl (omega arith) k;
    i_dtime = word (a + 20) (a' + 20) 20 refl refl (omega arith) k;
    i_gid = half (a + 24) (a' + 24) 24 refl refl (omega arith) k;
    i_links_count = half (a + 26) (a' + 26) 26 refl refl (omega arith) k;
    i_blocks = word (a + 28) (a' + 28) 28 refl refl (omega arith) k;
    i_flags = word (a + 32) (a' + 32) 32 refl refl (omega arith) k;
    i_block = fun_ext pointer k;
    i_generation = word (a + 100) (a' + 100) 100 refl refl (omega arith) k;
    i_file_acl = word (a + 104) (a' + 104) 104 refl refl (omega arith) k;
    i_dir_acl = word (a + 108) (a' + 108) 108 refl refl (omega arith) k;
    i_faddr = word (a + 112) (a' + 112) 112 refl refl (omega arith) k;
  }

-- The reads of `read`, of up to 65536 sectors, return the sectors that were asked for, with the bytes of `disk`.
pub record Reads (read : Read) (disk : Mem) : Type 0 where
  pub returns : (sectors n : ℕ) → sectors ≤ 65536 → (read sectors (u32 n)).0 ≡ pos sectors
  pub gives :
      (sectors n a : ℕ)
      → sectors ≤ 65536
      → a < sectors * 512
      → (read sectors (u32 n)).1 a ≡ disk (u32 n * 512 + a)

pub succeeds :
    {read : Read} {disk : Mem}
    → Reads read disk
    → (sectors n : ℕ) → sectors ≤ 65536
    → is_negative (read sectors (u32 n)).0 ≡ false
succeeds r sectors n few = ap is_negative (r.returns sectors n few)

fetch_from-Reads :
    (read : Read) (disk : Mem) (partition : Hd) (index lba : ℕ) (old : Mem)
    → Reads read disk
    → index < 4
    → lba + partition.sect_offset < 2 ^ 32
    → fetch_from read partition 128 index lba old
      ≡ fetched (read_inode disk ((lba + partition.sect_offset) * 512 + index * 128))
unfolding fetch_from hdd_read copy_inode
fetch_from-Reads read disk partition index lba old r lt small =
    rw (succeeds r 1 (lba + partition.sect_offset) (omega arith), fetch_from)
      (ap fetched
        (read_inode_same _ disk 0 ((lba + partition.sect_offset) * 512 + index * 128) same))
  where
    at : u32 (lba + partition.sect_offset) ≡ lba + partition.sect_offset
    at = omega arith

    same :
        (j : ℕ)
        → j < 128
        → copy_inode 128 index (read 1 (u32 (lba + partition.sect_offset))).1 old (0 + j)
          ≡ disk ((lba + partition.sect_offset) * 512 + index * 128 + j)
    same j below = ground (
      arith,
      at,
      r.gives 1 (lba + partition.sect_offset) (index * 128 + (0 + j)) (omega arith) (omega arith),
      ap disk {x = u32 (lba + partition.sect_offset) * 512 + (index * 128 + (0 + j))}
          {y = (lba + partition.sect_offset) * 512 + index * 128 + j} (omega (arith, at)),
    )

-- Where inode `n` stands on the disk: in the inode table of its group, behind those before it.
abbrev pub inode_group : Ext2Fs → ℕ → ℕ
inode_group fs n = (n - 1) / fs.superblock.inodes_per_group

abbrev pub table_sector : Ext2Fs → ℕ → ℕ
table_sector fs n =
    fs.partition.sect_offset
    + (read_group fs.group_descriptors (inode_group fs n)).bg_inode_table * (fs.block_size / 512)

abbrev pub inode_place : Ext2Fs → ℕ → ℕ
inode_place fs n = table_sector fs n * 512 + (n - 1) % fs.superblock.inodes_per_group * 128

-- Inodes of 128 bytes in groups of whole sectors, and a table of descriptors for all of them.
pub record HasInode (fs : Ext2Fs) (n : ℕ) : Type 0 where
  pub first : 0 < n
  pub last : n ≤ fs.superblock.total_inodes
  pub size : fs.superblock.inode_size ≡ 128
  pub groups : 0 < fs.superblock.inodes_per_group
  pub whole : fs.superblock.inodes_per_group % 4 ≡ 0
  pub described : inode_group fs n < gdt_size_sectors fs.gd_count * 16
  pub word : n < 2 ^ 32
  pub below : table_sector fs n + fs.superblock.inodes_per_group < 2 ^ 32

-- Past the checks of fetch_inode().
fetch_inode-fetch_from :
    (read : Read) (fs : Ext2Fs) (n : ℕ) (old : Mem) (size per_sector k : ℕ)
    → n ≤ fs.superblock.total_inodes
    → 0 < fs.superblock.inodes_per_group
    → fs.superblock.inode_size ≡ size
    → 512 / size ≡ per_sector
    → 0 < size
    → 0 < per_sector
    → sub32 n 1 ≡ k
    → k / fs.superblock.inodes_per_group < gdt_size_sectors fs.gd_count * 16
    → fetch_inode read n fs old
      ≡ fetch_from read fs.partition size
          (k % per_sector)
          (u32 (
            u32 (
              (read_group fs.group_descriptors (k / fs.superblock.inodes_per_group)).bg_inode_table
              * (fs.block_size / 512))
            + k % fs.superblock.inodes_per_group / per_sector))
          old
unfolding fetch_inode
fetch_inode-fetch_from read fs n old size per_sector k last groups e per pos1 pos2 sub described =
    ground arith

within_group : (n g : ℕ) → 0 < g → g % 4 ≡ 0 → n % g % 4 ≡ n % 4
within_group n g some_inodes whole = mod-mod_of_dvd 4 n (dvd_of_mod-eq-zero 4 whole)

-- fetch_inode() of an inode that the filesystem has gives the inode whose 128 bytes stand at its place in
-- the inode table of its block group on the disk, whatever the memory held before.
pub fetch_inode-inode_place :
    (read : Read) (disk : Mem) (fs : Ext2Fs) (n : ℕ) (old : Mem)
    → Reads read disk
    → HasInode fs n
    → fetch_inode read n fs old ≡ fetched (read_inode disk (inode_place fs n))
fetch_inode-inode_place read disk fs n old r h =
    fetch_inode-fetch_from read fs n old 128 4 (n - 1) h.last h.groups h.size refl (omega arith)
      (omega arith) (omega (arith, h.first, h.word)) h.described
    ∙ ap (λ lba. fetch_from read fs.partition 128 ((n - 1) % 4) lba old) {y = lba} wrap
    ∙ fetch_from-Reads read disk fs.partition ((n - 1) % 4) lba old r (omega arith)
        (omega (arith, h.below, below_group))
    ∙ ap (λ a. fetched (read_inode disk a))
        {x = (lba + fs.partition.sect_offset) * 512 + (n - 1) % 4 * 128} place
  where
    g : ℕ
    g = fs.superblock.inodes_per_group

    table : ℕ
    table =
        (read_group fs.group_descriptors (inode_group fs n)).bg_inode_table * (fs.block_size / 512)

    lba : ℕ
    lba = table + (n - 1) % g / 4

    below_group : (n - 1) % g < g
    below_group = mod-lt (n - 1) h.groups

    wrap : u32 (u32 table + (n - 1) % g / 4) ≡ lba
    wrap = omega (arith, h.below, below_group)

    place : (lba + fs.partition.sect_offset) * 512 + (n - 1) % 4 * 128 ≡ inode_place fs n
    place = omega (arith, within_group (n - 1) g h.groups h.whole)

-- With inodes of more than 128 bytes, fetch_inode() never returns one: where the disk answers, it copies
-- all the bytes of the inode over a structure of 128.
fetch_inode_overrun :
    (read : Read) (fs : Ext2Fs) (n : ℕ) (old : Mem) (i : Inode)
    → 128 < fs.superblock.inode_size
    → fetch_inode read n fs old ≢ fetched i
unfolding fetch_inode fetch_from
fetch_inode_overrun read fs n old i big = ground arith
