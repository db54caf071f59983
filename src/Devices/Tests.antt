-- ===== src/Devices/Tests.antt =====
-- The theorems of kernel/devices.c and kernel/fs/partscan.c at a disk with one used entry, the second.
use ulmix_i.Base.{ℕ, ◌≡◌, inl, refl, none, arith, ◌==◌, if◌then◌else◌, ltb, replicate}
use ulmix_i.Base.Int.{pos, negsuc}
use ulmix_i.Base.Slots.{find, free_slots}
use ulmix_i.Devices.{
  Chardev, Gendisk, Hd, null, part, is_mbr, read_entry, scan_entry, gendisk_partscan, hd_at,
  register_blkdev, get_gendisk, get_hdstruct,
}
use ulmix_i.Devices.Partitions.{used_below, partition, partscan_unchanged}
use ulmix_i.Devices.Registry.{register_blkdev-get_hdstruct}

-- Entry 1 is a partition of type 0x83 with 0x100 sectors from sector 8.
abbrev sector : ℕ → ℕ
sector a =
    if a == 0x1fe
    then 0x55
    else if a == 0x1ff
    then 0xaa
    else if a == 0x1d2
    then 0x83
    else if a == 0x1d6
    then 8
    else if a == 0x1db
    then 1
    else 0

abbrev no_part : Hd
no_part = record { sect_offset = 0; sect_count = 0; fs_type = 0; bd = 0 }

abbrev disk : Gendisk
disk = record {
  self = 0x9000;
  major = 4;
  io_size = 512;
  capacity = 0;
  part_count = 0;
  part_list = replicate 4 no_part;
  read = λ count lba. (pos count, sector);
}

abbrev tty : Chardev
tty = record { major = 5; minor = 1 }

-- The only partition of the disk is the second entry, and has no minor.
hidden_partition : hd_at (gendisk_partscan disk) 2 ≡ null
unfolding hd_at gendisk_partscan scan_entry
hidden_partition = refl

partscan_unchanged_example :
    gendisk_partscan (record disk { read = λ _ _. (negsuc 4, sector) })
    ≡ record disk { read = λ _ _. (negsuc 4, sector) }
partscan_unchanged_example =
    partscan_unchanged (record disk { read = λ _ _. (negsuc 4, sector) }) (inl refl)

register_blkdev-get_hdstruct_example :
    ((register_blkdev disk (replicate 32 none)).0 ≡ pos 0)
    × (get_hdstruct 4 2 (register_blkdev disk (replicate 32 none)).1
        ≡ (if ltb 1 (used_below sector 4) then part (partition disk sector 1) else null))
unfolding is_mbr read_entry get_gendisk find free_slots
register_blkdev-get_hdstruct_example =
    register_blkdev-get_hdstruct disk (replicate 32 none) sector 1 (refl, refl, refl) refl refl
      (omega arith) refl (omega arith) refl
