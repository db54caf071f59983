-- ===== src/Devices.antt =====
-- kernel/devices.c with kernel/include/devices.h, and kernel/fs/partscan.c: the tables of character
-- and block devices, and the partitions that the master boot record of a disk names.
pub mod Partitions
pub mod Registry
pub mod Sector
mod Tests
use ulmix_i.Base.{
  ℕ, zero, suc, ◌+◌, ◌-◌, ◌*◌, ◌/◌, ◌%◌, ◌^◌, Bool, true, false, not, ◌&&◌, ◌||◌, Option, none,
  some, List, [], ◌∷◌, ltb, ◌==◌, if◌then◌else◌, set, get_elem?,
}
use ulmix_i.Base.Bits.{u32, has_bit}
use ulmix_i.Base.Int.{ℤ, pos, negsuc, lt_nat}
use ulmix_i.Base.Slots.{claim, find}

-- struct chardev_struct, without its two function pointers.
pub record Chardev : Type 0 where
  pub major : ℕ
  pub minor : ℕ

-- struct hd_struct; `bd` is the address of the disk.
pub record Hd : Type 0 where
  pub sect_offset : ℕ
  pub sect_count : ℕ
  pub fs_type : ℕ
  pub bd : ℕ

-- struct gendisk_struct at address `self`. `read count lba` stands for `fops.read` on `drv_struct`:
-- what it returns, and what it leaves in the buffer.
pub record Gendisk : Type 0 where
  pub self : ℕ
  pub major : ℕ
  pub io_size : ℕ
  pub capacity : ℕ
  pub part_count : ℕ
  pub part_list : List Hd
  pub read : ℕ → ℕ → ℤ × (ℕ → ℕ)

-- struct mbr_entry_struct
pub record MbrEntry : Type 0 where
  pub bootable : Bool
  pub is_lba48 : Bool
  pub fs_id : ℕ
  pub start_sector : ℕ
  pub sector_count : ℕ
  pub id : ℕ

unfoldable pub is_mbr : (ℕ → ℕ) → Bool
is_mbr sector = sector 0x1fe == 0x55 && sector 0x1ff == 0xaa

-- An unaligned read of a little-endian uint32_t.
abbrev pub le32 : (ℕ → ℕ) → ℕ → ℕ
le32 m a = m a + 0x100 * m (a + 1) + 0x10000 * m (a + 2) + 0x1000000 * m (a + 3)

unfoldable pub read_entry : (ℕ → ℕ) → ℕ → MbrEntry
read_entry mbr i =
    let entry_offset = 0x1be + 16 * i in
    record {
      id = i;
      bootable = has_bit (mbr entry_offset) 7;
      is_lba48 = has_bit (mbr entry_offset) 0;
      fs_id = mbr (entry_offset + 4);
      start_sector = le32 mbr (entry_offset + 8);
      sector_count = le32 mbr (entry_offset + 12);
    }

pub bd_add_part : Gendisk → MbrEntry → Gendisk
bd_add_part bd entry = record bd {
  part_count = u32 (bd.part_count + 1);
  part_list = set bd.part_list entry.id (record {
    fs_type = entry.fs_id;
    sect_count = entry.sector_count;
    sect_offset = entry.start_sector;
    bd = bd.self;
  });
}

-- The body of the loop over the four entries.
pub scan_entry : (ℕ → ℕ) → ℕ → Gendisk → Gendisk
unfolding read_entry bd_add_part
scan_entry mbr i bd =
    let entry = read_entry mbr i in
    if entry.sector_count == 0 || entry.start_sector == 0 then bd else bd_add_part bd entry

pub gendisk_partscan : Gendisk → Gendisk
unfolding is_mbr
gendisk_partscan bd =
    let (n, mbr) = bd.read 1 0 in
    if lt_nat n 1
    then bd
    else if not (is_mbr mbr)
    then bd
    else scan_entry mbr 3 (scan_entry mbr 2 (scan_entry mbr 1 (scan_entry mbr 0 bd)))

abbrev pub max_devices : ℕ
max_devices = 32

pub register_chardev : Chardev → List (Option Chardev) → ℤ × List (Option Chardev)
register_chardev cd cd_list = elim (claim cd cd_list) [
  | none ↦ (negsuc 0, cd_list)
  | some cds ↦ (pos 0, cds)
]

-- The slot is taken first and the disk behind it scanned then: here, the scanned disk is stored.
unfoldable pub register_blkdev : Gendisk → List (Option Gendisk) → ℤ × List (Option Gendisk)
register_blkdev bd bd_list = elim (claim (gendisk_partscan bd) bd_list) [
  | none ↦ (negsuc 0, bd_list)
  | some bds ↦ (pos 0, bds)
]

pub get_chardev : ℕ → ℕ → List (Option Chardev) → Option Chardev
get_chardev major minor = find (λ cd. cd.major == major && cd.minor == minor)

unfoldable pub get_gendisk : ℕ → List (Option Gendisk) → Option Gendisk
get_gendisk major = find (λ bd. bd.major == major)

-- A `struct hd_struct *`: NULL, one of the four partitions, or `part_list[minor - 1]` out of bounds.
pub data HdPointer : Type 0 where
  null : HdPointer
  part : Hd → HdPointer
  wild : HdPointer

abbrev pub point_to : Option Hd → HdPointer
point_to none = wild
point_to (some p) = part p

unfoldable pub hd_at : Gendisk → ℕ → HdPointer
hd_at bd minor =
    if ltb bd.part_count minor
    then null
    else if minor == 0
    then wild
    else point_to (get_elem? bd.part_list (minor - 1))

unfoldable pub get_hdstruct : ℕ → ℕ → List (Option Gendisk) → HdPointer
get_hdstruct major minor bd_list = elim (get_gendisk major bd_list) [
  | none ↦ null
  | some bd ↦ hd_at bd minor
]
