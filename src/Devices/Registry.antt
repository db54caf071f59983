-- ===== src/Devices/Registry.antt =====
-- kernel/devices.c: registration and lookup.
use ulmix_i.Base.{
  ℕ, suc, ◌+◌, ◌<◌, ◌≡◌, ◌∙◌, ◌≢◌, ◌⊎◌, inl, inr, refl, true, ◌&&◌, Option, none, some, List, arith,
  ltb, ◌==◌, if◌then◌else◌, length,
}
use ulmix_i.Base.Int.{ℤ, pos, negsuc}
use ulmix_i.Base.Slots.{claim, find, free_slots, claim-none, claim-Registered, Registered}
use ulmix_i.Devices.{
  Chardev, Gendisk, null, part, register_chardev, register_blkdev, get_chardev, get_gendisk,
  get_hdstruct, hd_at, gendisk_partscan,
}
use ulmix_i.Devices.Partitions.{
  HasMbr, in_use, used_below, partition, partscan-hd_at, partscan-major,
}

-- What a registration that returns `status` owes: -1 and no change if no slot is free; otherwise 0,
-- one free slot less, and lookups that find the new device exactly where they found none before.
abbrev pub CharRegistered : Chardev → List (Option Chardev) → ℤ × List (Option Chardev) → Type 0
CharRegistered cd cds (status, cds') =
    ((free_slots cds ≡ 0) × (status ≡ negsuc 0) × (cds' ≡ cds))
    ⊎ ((status ≡ pos 0)
        × (free_slots cds ≡ suc (free_slots cds'))
        × (get_chardev cd.major cd.minor cds ≡ none → get_chardev cd.major cd.minor cds' ≡ some cd)
        × ((major minor : ℕ)
            → (major ≢ cd.major) ⊎ (minor ≢ cd.minor)
            → get_chardev major minor cds' ≡ get_chardev major minor cds))

-- register_chardev() returns -1 and changes nothing exactly when the table is full. Otherwise it
-- returns 0 and takes one slot; the device is found under its numbers if none was before, and
-- lookups under other numbers answer as before.
register_chardev_lem :
    (cd : Chardev) (cds : List (Option Chardev)) → CharRegistered cd cds (register_chardev cd cds)
unfolding register_chardev get_chardev
register_chardev_lem cd cds = go (claim cd cds) (claim-none cd cds).0 (claim-Registered cd cds)
  where
    go :
        (r : Option (List (Option Chardev)))
        → (r ≡ none → free_slots cds ≡ 0)
        → Registered cd cds r
        → CharRegistered cd cds (elim r [ none ↦ (negsuc 0, cds) | some cds' ↦ (pos 0, cds') ])
    go none full h = inl (full refl, refl, refl)
    go (some cds') full h = inr (
      refl,
      h.3,
      (λ e. h.1 (λ c. c.major == cd.major && c.minor == cd.minor) e (ground arith)),
      (λ major minor d. h.0 (λ c. c.major == major && c.minor == minor) (ground arith)),
    )

pub hdstruct_of :
    (bd : Gendisk) (minor major : ℕ) (bds : List (Option Gendisk))
    → get_gendisk major bds ≡ some bd
    → get_hdstruct major minor bds ≡ hd_at bd minor
unfolding get_hdstruct
hdstruct_of bd minor major bds e = rw (e, get_hdstruct) refl

found_in :
    (bd : Gendisk) (bds bds' : List (Option Gendisk))
    → (find (λ d. d.major == bd.major) bds ≡ none
        → ((gendisk_partscan bd).major == bd.major) ≡ true
        → find (λ d. d.major == bd.major) bds' ≡ some (gendisk_partscan bd))
    → get_gendisk bd.major bds ≡ none
    → ((gendisk_partscan bd).major == bd.major) ≡ true
    → get_gendisk bd.major bds' ≡ some (gendisk_partscan bd)
unfolding get_gendisk
found_in bd bds bds' h new m = h new m

-- A disk with a master boot record and no partitions yet is registered under a major number that no
-- disk has, while a slot is free: register_blkdev() returns 0, and get_hdstruct() gives for minor
-- `i + 1`, where entry `i` is in use, its partition if `i` is below the number of used entries, and
-- NULL otherwise.
pub register_blkdev-get_hdstruct :
    (bd : Gendisk) (bds : List (Option Gendisk)) (mbr : ℕ → ℕ) (i : ℕ)
    → HasMbr bd mbr
    → length bd.part_list ≡ 4
    → bd.part_count ≡ 0
    → i < 4
    → in_use mbr i ≡ true
    → 0 < free_slots bds
    → get_gendisk bd.major bds ≡ none
    → ((register_blkdev bd bds).0 ≡ pos 0)
      × (get_hdstruct bd.major (i + 1) (register_blkdev bd bds).1
          ≡ (if ltb i (used_below mbr 4) then part (partition bd mbr i) else null))
unfolding register_blkdev
register_blkdev-get_hdstruct bd bds mbr i h four fresh lt u room new =
    go (claim (gendisk_partscan bd) bds) (claim-none _ bds).0 (claim-Registered _ bds)
  where
    Goal : ℤ × List (Option Gendisk) → Type 0
    Goal (status, bds') =
        (status ≡ pos 0)
        × (get_hdstruct bd.major (i + 1) bds'
            ≡ (if ltb i (used_below mbr 4) then part (partition bd mbr i) else null))

    go :
        (r : Option (List (Option Gendisk)))
        → (r ≡ none → free_slots bds ≡ 0)
        → Registered (gendisk_partscan bd) bds r
        → Goal (elim r [ none ↦ (negsuc 0, bds) | some bds' ↦ (pos 0, bds') ])
    go none full reg = absurd (omega (arith, full refl))
    go (some bds') full reg = (
      refl,
      hdstruct_of (gendisk_partscan bd) (i + 1) bd.major bds' (
            found_in bd bds bds' (reg.1 (λ d. d.major == bd.major)) new
              (ground (arith, partscan-major bd mbr h four (omega arith))))
          ∙ partscan-hd_at bd mbr i h four fresh lt u,
    )
