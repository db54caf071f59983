-- ===== src/Pci/Scan.antt =====
-- kernel/bus/pci.c: which devices setup_pci() finds.
use ulmix_i.Base.{ℕ, Bool, true, false, ◌&&◌, ◌||◌, List, [], ◌∷◌, ltb, ◌==◌, if◌then◌else◌}
use ulmix_i.Pci.{Ports, pci_cfg_read16, Pcidev, Pci, pci_is_present}

abbrev pub is_at : (bus slot fnc : ℕ) → Pcidev → Bool
is_at bus slot fnc device =
    device.bus_no == bus && device.slot_no == slot && device.function_no == fnc

-- A device with these numbers is in the table.
abbrev pub has : (bus slot fnc : ℕ) → List Pcidev → Bool
has bus slot fnc [] = false
has bus slot fnc (device ∷ devices) = is_at bus slot fnc device || has bus slot fnc devices

module _ (ports : Ports) (b s f : ℕ) where
  -- The number of a vendor at function `k` of this slot is not 0xffff, which is read where no function answers.
  abbrev pub has_vendor : (k : ℕ) → Bool
  has_vendor k = if pci_cfg_read16 ports b s k 0 == 0xffff then false else true

  -- Function `f` and function 0 of this slot have vendors.
  abbrev pub answers : Bool
  answers = ltb f 8 && has_vendor 0 && has_vendor f

  abbrev present_both : Bool
  present_both = ltb f 8 && pci_is_present ports b s 0 && pci_is_present ports b s f

  abbrev found : Pci → Bool
  found pci = has b s f pci.devices
