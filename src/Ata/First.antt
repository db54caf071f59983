-- ===== src/Ata/First.antt =====
-- drivers/ata.c: the disk of the first drive, which ata_pci_probe() finds, in an empty table.
use ulmix_i.Base.{
  ℕ, ◌≡◌, ◌%◌, ◌<◌, refl, true, false, not, ◌&&◌, Option, none, some, List, [], ◌∷◌, ◌==◌,
}
use ulmix_i.Base.Memory.{Mem}
use ulmix_i.Base.Slots.{claim, also}
use ulmix_i.Devices.{Gendisk, register_blkdev, gendisk_partscan}
use ulmix_i.Pci.{Pcidev}
use ulmix_i.Ata.{
  Ports, AtaDev, answered, Probed, new_disk, ata_read, ata_identify, attach, ata_pci_probe,
  probe_loop, get_ports,
}
use ulmix_i.Ext2.Inodes.{Reads}
use ulmix_i.Ata.Drive.{Conforms}
use ulmix_i.Ata.Read.{ata_read-Reads}
use ulmix_i.Ata.Probe.{Keeps, after_scan-Keeps, after-Keeps, probe_loop-Keeps}

-- `d` stands in the first slot.
abbrev pub Leads : Gendisk → List (Option Gendisk) → Type 0
Leads d [] = ⊥
Leads d (none ∷ bds) = ⊥
Leads d (some b ∷ bds) = b ≡ d

-- A table that may have been given another disk.
abbrev LeadsIn : Gendisk → Option (List (Option Gendisk)) → Type 0
LeadsIn d none = Unit {0}
LeadsIn d (some bds) = Leads d bds

also-LeadsIn :
    (d b : Gendisk) (r : Option (List (Option Gendisk))) → b ≡ d → LeadsIn d (also (some b) r)
also-LeadsIn d b none e = tt
also-LeadsIn d b (some bds) e = e

claim-LeadsIn :
    (d a : Gendisk) (bds : List (Option Gendisk)) → Leads d bds → LeadsIn d (claim a bds)
unfolding claim
claim-LeadsIn d a [] f = absurd f
claim-LeadsIn d a (none ∷ bds) f = absurd f
claim-LeadsIn d a (some b ∷ bds) f = also-LeadsIn d b (claim a bds) f

pub register_blkdev-Leads :
    (d bd : Gendisk) (bds : List (Option Gendisk))
    → Leads d bds
    → Leads d (register_blkdev bd bds).1
unfolding register_blkdev
register_blkdev-Leads d bd bds f =
    go (claim (gendisk_partscan bd) bds) refl (claim-LeadsIn d (gendisk_partscan bd) bds f)
  where
    go :
        (r : Option (List (Option Gendisk)))
        → claim (gendisk_partscan bd) bds ≡ r
        → LeadsIn d r
        → Leads d (register_blkdev bd bds).1
    go none e h = rw (e, register_blkdev) f
    go (some bds') e h = rw (e, register_blkdev) h

-- The master of the first channel, as the loop of ata_pci_probe() describes it.
abbrev pub master : Pcidev → (old : Mem) → AtaDev
master pci old = record { pci = pci; type = 0; base_io = 0x1f0; ctrl_io = 0x3f6; identity = old }

-- What is registered for it.
abbrev pub first_disk :
    {W : Type 0} → Ports W → ℕ → Pcidev → (old identity : Mem) → (memory : Gendisk) → W → Gendisk
first_disk ports fuel pci old identity memory w =
    gendisk_partscan
      (new_disk ports fuel (record (master pci old) { identity = identity }) w old memory)

module _ {W : Type 0} (ports : Ports W) (fuel : ℕ) (pci : Pcidev) (old identity : Mem)
    (memory : ℕ → Gendisk) (w w' : W)
    (is_found : ata_identify ports fuel (master pci old) w ≡ answered true w' identity) where
  -- The table behind the first drive and those that follow.
  abbrev pub KeepsFirst : Probed W → Type 0
  KeepsFirst =
      Keeps ports (Leads (first_disk ports fuel pci old identity (memory 0) w'))
        (register_blkdev-Leads (first_disk ports fuel pci old identity (memory 0) w'))

  attach-Leads :
      (bds : List (Option Gendisk))
      → KeepsFirst (
          attach ports fuel
            (master pci old)
            old
            (memory 0)
            (ata_identify ports fuel (master pci old) w)
            (none ∷ bds))
  unfolding attach register_blkdev claim
  attach-Leads bds =
      rw (is_found, attach)
        (after_scan-Keeps ports (Leads (first_disk ports fuel pci old identity (memory 0) w'))
          (register_blkdev-Leads (first_disk ports fuel pci old identity (memory 0) w'))
          (ata_read ports fuel (record (master pci old) { identity = identity }) false w' old 0 1 0)
          (some (first_disk ports fuel pci old identity (memory 0) w') ∷ bds) refl)

  pub probe-Leads :
      (bds : List (Option Gendisk))
      → (not (pci.class == 1) && not (pci.subclass == 1)) ≡ false
      → KeepsFirst (ata_pci_probe ports fuel pci old memory w (none ∷ bds))
  unfolding ata_pci_probe probe_loop get_ports
  probe-Leads bds ide = rw ide (
      after-Keeps ports (Leads (first_disk ports fuel pci old identity (memory 0) w'))
        (register_blkdev-Leads (first_disk ports fuel pci old identity (memory 0) w'))
        (λ w1 bds1. probe_loop ports 3 1 fuel pci old memory w1 bds1)
        (attach ports fuel (master pci old) old (memory 0)
          (ata_identify ports fuel (master pci old) w) (none ∷ bds))
        (attach-Leads bds)
        (λ w1 bds1.
          probe_loop-Keeps ports (Leads (first_disk ports fuel pci old identity (memory 0) w'))
            (register_blkdev-Leads (first_disk ports fuel pci old identity (memory 0) w')) 3 1 fuel
            pci old memory w1 bds1))

-- Such a drive conforms to the commands: what register_blkdev() finds on its disk.
module _ {W : Type 0} (ports : Ports W) (dev : AtaDev) (disk : Mem) (slow fuel : ℕ)
    (c : Conforms ports dev.base_io disk slow) (w : W) (old : Mem) (memory : Gendisk)
    (mine : c.unit ≡ dev.type % 2) (enough : slow < fuel) (z : c.polls w ≡ 0) where
  pub new_disk-Reads : Reads (new_disk ports fuel dev w old memory).read disk
  unfolding new_disk
  new_disk-Reads = ata_read-Reads ports dev disk slow fuel c w old mine enough z

pub new_disk-parts :
    {W : Type 0} (ports : Ports W) (fuel : ℕ) (dev : AtaDev) (w : W) (old : Mem) (memory : Gendisk)
    → ((new_disk ports fuel dev w old memory).part_list ≡ memory.part_list)
      × ((new_disk ports fuel dev w old memory).part_count ≡ memory.part_count)
      × ((new_disk ports fuel dev w old memory).self ≡ memory.self)
      × ((new_disk ports fuel dev w old memory).major ≡ 4)
unfolding new_disk
new_disk-parts ports fuel dev w old memory = (refl, refl, refl, refl)
