-- ===== src/Devices/Partitions.antt =====
-- kernel/fs/partscan.c: what the scan of a partition table adds to a disk.
use ulmix_i.Base.{
  ℕ, zero, suc, ◌+◌, ◌-◌, ◌^◌, ◌<◌, ◌≤◌, ◌≡◌, ◌∙◌, ◌⊎◌, refl, inl, inr, Bool, true, false, not,
  ◌||◌, some, arith, ltb, ◌==◌, if◌then◌else◌, Bool-cases, length, get_elem?, length-set,
  get_elem?-set_self, get_elem?-set_ne,
}
use ulmix_i.Base.Int.{lt_nat}
use ulmix_i.Devices.{
  Hd, Gendisk, is_mbr, read_entry, bd_add_part, scan_entry, gendisk_partscan, hd_at, null, part,
}

-- Entry `i` of a partition table is in use.
abbrev pub in_use : (ℕ → ℕ) → ℕ → Bool
in_use mbr i = not ((read_entry mbr i).sector_count == 0 || (read_entry mbr i).start_sector == 0)

-- The partition that entry `i` describes, on disk `bd`.
abbrev pub partition : Gendisk → (ℕ → ℕ) → ℕ → Hd
partition bd mbr i = record {
  fs_type = (read_entry mbr i).fs_id;
  sect_count = (read_entry mbr i).sector_count;
  sect_offset = (read_entry mbr i).start_sector;
  bd = bd.self;
}

abbrev pub one_if : Bool → ℕ
one_if b = if b then 1 else 0

-- How many of the first `n` entries are in use.
abbrev pub used_below : (ℕ → ℕ) → ℕ → ℕ
used_below mbr zero = 0
used_below mbr (suc n) = used_below mbr n + one_if (in_use mbr n)

-- The disk after the scan of the first `n` entries.
record Scanned (bd : Gendisk) (mbr : ℕ → ℕ) (n : ℕ) (d : Gendisk) : Type 0 where
  count : d.part_count ≡ bd.part_count + used_below mbr n
  size : length d.part_list ≡ length bd.part_list
  self : d.self ≡ bd.self
  major : d.major ≡ bd.major
  read : d.read ≡ bd.read
  found :
      (i : ℕ) → i < n → in_use mbr i ≡ true → get_elem? d.part_list i ≡ some (partition bd mbr i)
  kept :
      (i : ℕ)
      → (n ≤ i) ⊎ (in_use mbr i ≡ false)
      → get_elem? d.part_list i ≡ get_elem? bd.part_list i

-- An entry in use adds its partition, any other leaves the disk.
entry_used :
    (d : Gendisk) (mbr : ℕ → ℕ) (n : ℕ)
    → in_use mbr n ≡ true
    → scan_entry mbr n d ≡ bd_add_part d (read_entry mbr n)
unfolding scan_entry
entry_used d mbr n u = ground arith

entry_unused : (d : Gendisk) (mbr : ℕ → ℕ) (n : ℕ) → in_use mbr n ≡ false → scan_entry mbr n d ≡ d
unfolding scan_entry
entry_unused d mbr n u = ground arith

module _ (bd d : Gendisk) (mbr : ℕ → ℕ) (n : ℕ) (four : length bd.part_list ≡ 4)
    (small : bd.part_count + 4 < 2 ^ 32) (lt : n < 4) (few : used_below mbr n ≤ n)
    (s : Scanned bd mbr n d) where
  add_entry : in_use mbr n ≡ true → Scanned bd mbr (suc n) (bd_add_part d (read_entry mbr n))
  unfolding bd_add_part read_entry
  add_entry u = record {
    count = ground (arith, s.count);
    size = length-set d.part_list n _ ∙ s.size;
    self = s.self;
    major = s.major;
    read = s.read;
    found = λ i li ui. elim (Bool-cases (i == n)) [
      | inl e ↦ ground (arith, get_elem?-set_self d.part_list n (partition d mbr n), s.size, s.self)
      | inr e ↦ get_elem?-set_ne d.part_list n i _ (ground arith) ∙ s.found i (ground arith) ui
    ];
    kept = λ i o. get_elem?-set_ne d.part_list n i _ (ground arith) ∙ s.kept i (ground arith);
  }

  skip_entry : in_use mbr n ≡ false → Scanned bd mbr (suc n) d
  skip_entry u = record {
    count = ground (arith, s.count);
    size = s.size;
    self = s.self;
    major = s.major;
    read = s.read;
    found = λ i li ui. s.found i (ground arith) ui;
    kept = λ i o. s.kept i (ground arith);
  }

  scan_one : Scanned bd mbr (suc n) (scan_entry mbr n d)
  scan_one = elim (Bool-cases (in_use mbr n)) [
    | inl u ↦ rw (entry_used d mbr n u) (add_entry u)
    | inr u ↦ rw (entry_unused d mbr n u) (skip_entry u)
  ]

used_below-le : (mbr : ℕ → ℕ) (n : ℕ) → used_below mbr n ≤ n
used_below-le mbr zero = omega arith
used_below-le mbr (suc n) = ground (arith, used_below-le mbr n)

-- The disk answered with a sector that has the boot signature.
abbrev pub HasMbr : Gendisk → (ℕ → ℕ) → Type 0
HasMbr bd mbr = (lt_nat (bd.read 1 0).0 1 ≡ false) × ((bd.read 1 0).1 ≡ mbr) × (is_mbr mbr ≡ true)

partscan-Scanned :
    (bd : Gendisk) (mbr : ℕ → ℕ)
    → HasMbr bd mbr
    → length bd.part_list ≡ 4
    → bd.part_count + 4 < 2 ^ 32
    → Scanned bd mbr 4 (gendisk_partscan bd)
unfolding gendisk_partscan
partscan-Scanned bd mbr h four small =
    rw (h.0, h.1)
      (rw h.2 (
        step 3 _ (omega arith)
          (step 2 _ (omega arith) (step 1 _ (omega arith) (step 0 bd (omega arith) begin)))))
  where
    begin : Scanned bd mbr 0 bd
    begin = record {
      count = omega arith;
      size = refl;
      self = refl;
      major = refl;
      read = refl;
      found = λ i li u. elim li [ ];
      kept = λ i o. refl;
    }

    step :
        (n : ℕ) (d : Gendisk)
        → n < 4
        → Scanned bd mbr n d
        → Scanned bd mbr (suc n) (scan_entry mbr n d)
    step n d lt s = scan_one bd d mbr n four small lt (used_below-le mbr n) s

pub partscan-major :
    (bd : Gendisk) (mbr : ℕ → ℕ)
    → HasMbr bd mbr
    → length bd.part_list ≡ 4
    → bd.part_count + 4 < 2 ^ 32
    → (gendisk_partscan bd).major ≡ bd.major
partscan-major bd mbr h four small = (partscan-Scanned bd mbr h four small).major

pub partscan-self :
    (bd : Gendisk) (mbr : ℕ → ℕ)
    → HasMbr bd mbr
    → length bd.part_list ≡ 4
    → bd.part_count + 4 < 2 ^ 32
    → (gendisk_partscan bd).self ≡ bd.self
partscan-self bd mbr h four small = (partscan-Scanned bd mbr h four small).self

pub partscan-read :
    (bd : Gendisk) (mbr : ℕ → ℕ)
    → HasMbr bd mbr
    → length bd.part_list ≡ 4
    → bd.part_count + 4 < 2 ^ 32
    → (gendisk_partscan bd).read ≡ bd.read
partscan-read bd mbr h four small = (partscan-Scanned bd mbr h four small).read

-- For a disk with no partitions yet whose first sector is a master boot record, minor `i + 1` is the
-- partition of a used entry `i` if `i` is below the number of entries in use; otherwise, as when an unused
-- entry stands in front of it, a used entry's minor is NULL.
pub partscan-hd_at :
    (bd : Gendisk) (mbr : ℕ → ℕ) (i : ℕ)
    → HasMbr bd mbr
    → length bd.part_list ≡ 4
    → bd.part_count ≡ 0
    → i < 4
    → in_use mbr i ≡ true
    → hd_at (gendisk_partscan bd) (i + 1)
      ≡ (if ltb i (used_below mbr 4) then part (partition bd mbr i) else null)
unfolding hd_at
partscan-hd_at bd mbr i h four fresh lt u =
    let s = partscan-Scanned bd mbr h four (omega arith) in
    ground (arith, s.count, s.found i lt u, sub_one i)
  where
    sub_one : (n : ℕ) → n + 1 - 1 ≡ n
    sub_one n = omega arith

-- A disk that cannot be read, or whose first sector has no boot signature, is left as it is.
pub partscan_unchanged :
    (bd : Gendisk)
    → (lt_nat (bd.read 1 0).0 1 ≡ true) ⊎ (is_mbr (bd.read 1 0).1 ≡ false)
    → gendisk_partscan bd ≡ bd
unfolding gendisk_partscan
partscan_unchanged bd h = ground arith
