-- ===== src/Ata/Probe.antt =====
-- drivers/ata.c: the disks that ata_pci_probe() registers, all with MAJOR_ATA0.
use ulmix_i.Base.{
  ℕ, zero, suc, ◌+◌, ◌≡◌, inl, inr, refl, true, false, not, ◌&&◌, Option, none, some, List, ◌==◌,
  Bool-cases,
}
use ulmix_i.Base.Int.{is_negative}
use ulmix_i.Base.Memory.{Mem}
use ulmix_i.Devices.{Gendisk, register_blkdev}
use ulmix_i.Pci.{Pcidev}
use ulmix_i.Ata.{
  Ports, AtaDev, get_ports, Outcome, returned, hung, Identified, answered, stuck, Probed, probed,
  panicked, waiting, after_scan, new_disk, ata_read, attach, probe_loop, ata_pci_probe,
}

-- `P` holds of the table and stays when a disk is registered.
module _ {W : Type 0} (ports : Ports W) (P : List (Option Gendisk) → Type 0)
    (keep : (bd : Gendisk) (bds : List (Option Gendisk))
      → P bds
      → P (register_blkdev bd bds).1) where
  -- What ata_pci_probe() leaves when it returns.
  abbrev pub Keeps : Probed W → Type 0
  Keeps (probed status w bds) = P bds
  Keeps panicked = Unit {0}
  Keeps waiting = Unit {0}

  pub after_scan-Keeps :
      (r : Outcome W) (bds : List (Option Gendisk)) → P bds → Keeps (after_scan r bds)
  after_scan-Keeps (returned status w locked m) bds f = f
  after_scan-Keeps hung bds f = tt

  attach-Keeps :
      (fuel : ℕ) (dev : AtaDev) (old : Mem) (memory : Gendisk) (r : Identified W)
      (bds : List (Option Gendisk))
      → P bds
      → Keeps (attach ports fuel dev old memory r bds)
  unfolding attach
  attach-Keeps fuel dev old memory stuck bds f = tt
  attach-Keeps fuel dev old memory (answered false w identity) bds f = f
  attach-Keeps fuel dev old memory (answered true w identity) bds f =
      elim (Bool-cases (
        is_negative
          (register_blkdev (new_disk ports fuel (record dev { identity = identity }) w old memory)
            bds).0)) [
              | inl t ↦ rw t tt
              | inr t ↦ rw t (
                  after_scan-Keeps
                    (ata_read ports fuel (record dev { identity = identity }) false w old 0 1 0) _
                    (keep _ bds f))
            ]

  pub after-Keeps :
      (next : W → List (Option Gendisk) → Probed W) (r : Probed W)
      → Keeps r
      → ((w : W) (bds : List (Option Gendisk)) → P bds → Keeps (next w bds))
      → Keeps
          (elim r [ probed status w bds ↦ next w bds | panicked ↦ panicked | waiting ↦ waiting ])
  after-Keeps next (probed status w bds) k h = h w bds k
  after-Keeps next panicked k h = tt
  after-Keeps next waiting k h = tt

  pub probe_loop-Keeps :
      (n i fuel : ℕ) (pci : Pcidev) (old : Mem) (memory : ℕ → Gendisk) (w : W)
      (bds : List (Option Gendisk))
      → P bds
      → Keeps (probe_loop ports n i fuel pci old memory w bds)
  unfolding probe_loop
  probe_loop-Keeps zero i fuel pci old memory w bds f = f
  probe_loop-Keeps (suc n) i fuel pci old memory w bds f =
      given (get_ports 0 i) refl
        (λ w' bds' f'. probe_loop-Keeps n (i + 1) fuel pci old memory w' bds' f')
    where
      given :
          (r : Option (ℕ × ℕ))
          → get_ports 0 i ≡ r
          → ((w' : W) (bds' : List (Option Gendisk))
              → P bds'
              → Keeps (probe_loop ports n (i + 1) fuel pci old memory w' bds'))
          → Keeps (probe_loop ports (suc n) i fuel pci old memory w bds)
      given none e ih = rw (e, probe_loop) f
      given (some (base_io, ctrl_io)) e ih =
          rw (e, probe_loop)
            (after-Keeps (λ w' bds'. probe_loop ports n (i + 1) fuel pci old memory w' bds') _
              (attach-Keeps fuel
                (record {
                  pci = pci;
                  type = i;
                  base_io = base_io;
                  ctrl_io = ctrl_io;
                  identity = old;
                })
                old (memory i) _ bds f)
              ih)

  pub ata_pci_probe-Keeps :
      (fuel : ℕ) (pci : Pcidev) (old : Mem) (memory : ℕ → Gendisk) (w : W)
      (bds : List (Option Gendisk))
      → P bds
      → Keeps (ata_pci_probe ports fuel pci old memory w bds)
  unfolding ata_pci_probe
  ata_pci_probe-Keeps fuel pci old memory w bds f =
      elim (Bool-cases (not (pci.class == 1) && not (pci.subclass == 1))) [
        | inl t ↦ rw t f
        | inr t ↦ rw t (probe_loop-Keeps 4 0 fuel pci old memory w bds f)
      ]
