-- ===== src/Boot/Partitions.antt =====
-- kernel/fs/partscan.c on a disk whose sectors can be read: the partitions are those of its first sector.
use ulmix_i.Base.{ℕ, ◌+◌, ◌<◌, ◌≡◌, ◌∙◌, refl, ap, true, arith, ltb, if◌then◌else◌, length}
use ulmix_i.Base.Int.{lt_nat}
use ulmix_i.Base.Memory.{Mem}
use ulmix_i.Devices.{Gendisk, is_mbr, gendisk_partscan, hd_at, null, part}
use ulmix_i.Devices.Partitions.{
  in_use, partition, used_below, HasMbr, partscan-hd_at, partscan-self, partscan-major,
  partscan-read,
}
use ulmix_i.Devices.Sector.{read_entry_same, is_mbr_same, in_use_same, used_below_same}
use ulmix_i.Ext2.Inodes.{Reads}

module _ (bd : Gendisk) (disk : Mem) (r : Reads bd.read disk) (signed : is_mbr disk ≡ true)
    (four : length bd.part_list ≡ 4) (fresh : bd.part_count ≡ 0) where
  first_sector : (j : ℕ) → j < 512 → (bd.read 1 0).1 j ≡ disk j
  first_sector j lt = r.gives 1 0 j (omega arith) (omega arith) ∙ ap disk (omega arith)

  has_mbr : HasMbr bd (bd.read 1 0).1
  has_mbr = (
    ap (λ n. lt_nat n 1) (r.returns 1 0 (omega arith)),
    refl,
    is_mbr_same (bd.read 1 0).1 disk first_sector ∙ signed,
  )

  pub hd_at-partition :
      (i : ℕ)
      → i < 4
      → in_use disk i ≡ true
      → hd_at (gendisk_partscan bd) (i + 1)
        ≡ (if ltb i (used_below disk 4) then part (partition bd disk i) else null)
  hd_at-partition i lt u =
      partscan-hd_at bd (bd.read 1 0).1 i has_mbr four fresh lt
        (in_use_same (bd.read 1 0).1 disk first_sector i lt ∙ u)
      ∙ (λ k.
          if ltb i (used_below_same (bd.read 1 0).1 disk first_sector k)
          then part (record {
            fs_type = (read_entry_same (bd.read 1 0).1 disk first_sector i lt k).fs_id;
            sect_count = (read_entry_same (bd.read 1 0).1 disk first_sector i lt k).sector_count;
            sect_offset = (read_entry_same (bd.read 1 0).1 disk first_sector i lt k).start_sector;
            bd = bd.self;
          })
          else null)

  -- The first entry, if it is in use, always has minor 1.
  pub hd_at-first :
      in_use disk 0 ≡ true → hd_at (gendisk_partscan bd) 1 ≡ part (partition bd disk 0)
  hd_at-first u = hd_at-partition 0 (omega arith) u ∙ ground (arith, u)

  pub scan_self : (gendisk_partscan bd).self ≡ bd.self
  scan_self = partscan-self bd (bd.read 1 0).1 has_mbr four (omega arith)

  pub scan_major : (gendisk_partscan bd).major ≡ bd.major
  scan_major = partscan-major bd (bd.read 1 0).1 has_mbr four (omega arith)

  pub scan_read : (gendisk_partscan bd).read ≡ bd.read
  scan_read = partscan-read bd (bd.read 1 0).1 has_mbr four (omega arith)
