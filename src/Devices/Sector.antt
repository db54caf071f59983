-- ===== src/Devices/Sector.antt =====
-- kernel/fs/partscan.c: a partition table reads the same from equal sectors.
use ulmix_i.Base.{ℕ, ◌+◌, ◌*◌, ◌<◌, ◌≡◌, refl, ap, not, ◌||◌, arith, ◌==◌}
use ulmix_i.Base.Bits.{has_bit}
use ulmix_i.Base.Memory.{Mem}
use ulmix_i.Devices.{MbrEntry, le32, is_mbr, read_entry}
use ulmix_i.Devices.Partitions.{in_use, one_if, used_below}

module _ (mbr disk : Mem) (same : (j : ℕ) → j < 512 → mbr j ≡ disk j) where
  le32_same : (a : ℕ) → a + 3 < 512 → le32 mbr a ≡ le32 disk a
  le32_same a lt = omega (
    arith,
    same a (omega arith),
    same (a + 1) (omega arith),
    same (a + 2) (omega arith),
    same (a + 3) (omega arith),
  )

  pub read_entry_same : (i : ℕ) → i < 4 → read_entry mbr i ≡ read_entry disk i
  unfolding read_entry
  read_entry_same i lt = λ k. record {
    id = i;
    bootable = ap (λ x. has_bit x 7) (same (0x1be + 16 * i) (omega arith)) k;
    is_lba48 = ap (λ x. has_bit x 0) (same (0x1be + 16 * i) (omega arith)) k;
    fs_id = same (0x1be + 16 * i + 4) (omega arith) k;
    start_sector = le32_same (0x1be + 16 * i + 8) (omega arith) k;
    sector_count = le32_same (0x1be + 16 * i + 12) (omega arith) k;
  }

  pub is_mbr_same : is_mbr mbr ≡ is_mbr disk
  unfolding is_mbr
  is_mbr_same = rw (same 0x1fe (omega arith), same 0x1ff (omega arith)) refl

  pub in_use_same : (i : ℕ) → i < 4 → in_use mbr i ≡ in_use disk i
  in_use_same i lt =
      ap (λ (e : MbrEntry). not (e.sector_count == 0 || e.start_sector == 0)) (read_entry_same i lt)

  pub used_below_same : used_below mbr 4 ≡ used_below disk 4
  used_below_same = omega (
    arith,
    ap one_if (in_use_same 0 (omega arith)),
    ap one_if (in_use_same 1 (omega arith)),
    ap one_if (in_use_same 2 (omega arith)),
    ap one_if (in_use_same 3 (omega arith)),
  )
