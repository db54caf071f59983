-- ===== src/Boot/Disks.antt =====
-- kernel/iosetup.c: the disk that is found first stays the first in the table.
use ulmix_i.Base.{ℕ, ◌+◌, ◌≡◌, false, not, ◌&&◌, true, Option, none, List, [], ◌∷◌, ◌==◌}
use ulmix_i.Base.Memory.{Mem}
use ulmix_i.Devices.{Gendisk}
use ulmix_i.Pci.{Pcidev}
use ulmix_i.Ata.{answered, ata_identify, ata_pci_probe}
use ulmix_i.Ata.Probe.{Keeps, after-Keeps, ata_pci_probe-Keeps}
use ulmix_i.Ata.First.{Leads, register_blkdev-Leads, master, first_disk, probe-Leads}
use ulmix_i.Boot.{Machine, probe_all}

-- All further probes.
probe_all-Leads :
    {W : Type 0} (fuel : ℕ) (machine : Machine W) (d : Gendisk) (call : ℕ)
    (probes : List (ℕ × Pcidev)) (w : W) (bds : List (Option Gendisk))
    → Leads d bds
    → Keeps machine.ata_ports
        (Leads d)
        (register_blkdev-Leads d)
        (probe_all fuel machine call probes w bds)
unfolding probe_all
probe_all-Leads fuel machine d call [] w bds f = f
probe_all-Leads fuel machine d call ((driver, device) ∷ probes) w bds f =
    after-Keeps machine.ata_ports (Leads d) (register_blkdev-Leads d)
      (λ w1 bds1. probe_all fuel machine (call + 1) probes w1 bds1)
      (ata_pci_probe machine.ata_ports fuel device machine.old (machine.gendisks call) w bds)
      (ata_pci_probe-Keeps machine.ata_ports (Leads d) (register_blkdev-Leads d) fuel device
        machine.old (machine.gendisks call) w bds f)
      (λ w1 bds1. probe_all-Leads fuel machine d (call + 1) probes w1 bds1)

-- The probes that setup_pci() makes, when the first is that of a controller with a drive.
pub probe_all-first :
    {W : Type 0} (fuel : ℕ) (machine : Machine W) (driver : ℕ) (pci : Pcidev)
    (probes : List (ℕ × Pcidev)) (identity : Mem) (w' : W) (bds : List (Option Gendisk))
    → (not (pci.class == 1) && not (pci.subclass == 1)) ≡ false
    → ata_identify machine.ata_ports fuel (master pci machine.old) machine.world
      ≡ answered true w' identity
    → Keeps machine.ata_ports
        (Leads
          (first_disk machine.ata_ports fuel pci machine.old identity (machine.gendisks 0 0) w'))
        (register_blkdev-Leads
          (first_disk machine.ata_ports fuel pci machine.old identity (machine.gendisks 0 0) w'))
        (probe_all fuel machine 0 ((driver, pci) ∷ probes) machine.world (none ∷ bds))
unfolding probe_all
probe_all-first fuel machine driver pci probes identity w' bds ide found =
    after-Keeps machine.ata_ports (Leads D) (register_blkdev-Leads D)
      (λ w1 bds1. probe_all fuel machine 1 probes w1 bds1)
      (ata_pci_probe machine.ata_ports fuel pci machine.old (machine.gendisks 0) machine.world
        (none ∷ bds))
      (probe-Leads machine.ata_ports fuel pci machine.old identity (machine.gendisks 0)
        machine.world w' found bds ide)
      (λ w1 bds1. probe_all-Leads fuel machine D 1 probes w1 bds1)
  where
    D : Gendisk
    D = first_disk machine.ata_ports fuel pci machine.old identity (machine.gendisks 0 0) w'
