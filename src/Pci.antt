-- ===== src/Pci.antt =====
-- kernel/bus/pci.c, kernel/bus/pci_cfgspace.c: the configuration space, and the scan for devices. What the
-- ports answer is a parameter: the 32 bits at CONFIG_DATA for each value of CONFIG_ADDRESS. kmalloc() is
-- taken to succeed.
pub mod Config
pub mod Scan
mod Tests
use Prim.Native.Nat.{bit_or}
use ulmix_i.Base.{
  ℕ, zero, suc, ◌+◌, ◌-◌, ◌*◌, ◌/◌, ◌%◌, ◌^◌, Bool, true, false, not, ◌&&◌, Option, none, some,
  List, [], ◌∷◌, ◌++◌, ltb, ◌==◌, if◌then◌else◌,
}
use ulmix_i.Base.Bits.{u32}
use ulmix_i.Base.Int.{ℤ, pos, neg}
use ulmix_i.Base.Slots.{claim}
use ulmix_i.Errno.{eagain}

abbrev pub Ports : Type 0
Ports = (config_address : ℕ) → ℕ

-- `offset & 0xfc` of a `uint8_t`.
unfoldable pub config_address : (bus slot fnc offset : ℕ) → ℕ
config_address bus slot fnc offset =
    bit_or
      (bit_or (bit_or (bit_or (u32 (bus * 2 ^ 16)) (u32 (slot * 2 ^ 11))) (u32 (fnc * 2 ^ 8)))
        (offset / 4 * 4))
      (2 ^ 31)

unfoldable pub pci_cfg_read32 : Ports → (bus slot fnc offset : ℕ) → ℕ
unfolding config_address
pci_cfg_read32 ports bus slot fnc offset = ports (config_address bus slot fnc offset)

-- `offset & 2` is `offset / 2 % 2 * 2`.
unfoldable pub pci_cfg_read16 : Ports → (bus slot fnc offset : ℕ) → ℕ
pci_cfg_read16 ports bus slot fnc offset =
    pci_cfg_read32 ports bus slot fnc offset / 2 ^ (offset / 2 % 2 * 2 * 8) % 2 ^ 16

unfoldable pub pci_cfg_read8 : Ports → (bus slot fnc offset : ℕ) → ℕ
pci_cfg_read8 ports bus slot fnc offset =
    pci_cfg_read32 ports bus slot fnc offset / 2 ^ (offset % 4 * 8) % 2 ^ 8

pub pci_is_present : Ports → (bus slot fnc : ℕ) → Bool
unfolding pci_cfg_read16
pci_is_present ports bus slot fnc = not (pci_cfg_read16 ports bus slot fnc 0 == 0xffff)

pub record Pcidev : Type 0 where
  pub bus_no : ℕ
  pub slot_no : ℕ
  pub function_no : ℕ
  pub device_id : ℕ
  pub vendor_id : ℕ
  pub revision : ℕ
  pub prog_if : ℕ
  pub subclass : ℕ
  pub class : ℕ

-- A driver, by number, and its pairs of vendor and device.
pub record PciDriver : Type 0 where
  pub ids : List (ℕ × ℕ)
  pub driver_probe : ℕ

-- The table of devices from its first place on, and the calls of driver_probe() in their order. `in_bounds`
-- tells whether every write was inside the table.
pub record Pci : Type 0 where
  pub devices : List Pcidev
  pub drivers : List (Option PciDriver)
  pub probes : List (ℕ × Pcidev)
  pub device_index : ℕ
  pub in_bounds : Bool

-- The pairs of one driver, up to vendor 0.
pub probe_ids : (driver_probe : ℕ) → Pcidev → List (ℕ × ℕ) → List (ℕ × Pcidev)
probe_ids driver_probe device [] = []
probe_ids driver_probe device ((vendor, id) ∷ ids) =
    let rest = probe_ids driver_probe device ids in
    if vendor == 0
    then []
    else if vendor == device.vendor_id && id == device.device_id
    then (driver_probe, device) ∷ rest
    else rest

pub probe_drivers : Pcidev → List (Option PciDriver) → List (ℕ × Pcidev)
unfolding probe_ids
probe_drivers device [] = []
probe_drivers device (none ∷ drivers) = probe_drivers device drivers
probe_drivers device (some driver ∷ drivers) =
    probe_ids driver.driver_probe device driver.ids ++ probe_drivers device drivers

pub read_device : Ports → (bus slot fnc : ℕ) → Pcidev
unfolding pci_cfg_read8
read_device ports bus slot fnc = record {
  bus_no = bus;
  slot_no = slot;
  function_no = fnc;
  vendor_id = pci_cfg_read16 ports bus slot fnc 0x00;
  device_id = pci_cfg_read16 ports bus slot fnc 0x02;
  revision = pci_cfg_read8 ports bus slot fnc 0x08;
  prog_if = pci_cfg_read8 ports bus slot fnc 0x09;
  subclass = pci_cfg_read8 ports bus slot fnc 0x0a;
  class = pci_cfg_read8 ports bus slot fnc 0x0b;
}

-- `devices[id] = device` with `id` counted up by the caller; there are 128 places.
pub add_pci_device : Ports → (bus slot fnc : ℕ) → Pci → Pci
unfolding read_device probe_drivers
add_pci_device ports bus slot fnc pci = record pci {
  devices = pci.devices ++ (read_device ports bus slot fnc ∷ []);
  probes = pci.probes ++ probe_drivers (read_device ports bus slot fnc) pci.drivers;
  device_index = pci.device_index + 1;
  in_bounds = pci.in_bounds && ltb pci.device_index 128;
}

-- The three loops of setup_pci(), from the innermost on.
pub scan_functions : ℕ → Ports → (bus slot fnc : ℕ) → Pci → Pci
unfolding add_pci_device pci_is_present
scan_functions zero ports bus slot fnc pci = pci
scan_functions (suc n) ports bus slot fnc pci =
    scan_functions n ports bus slot (fnc + 1)
      (if pci_is_present ports bus slot fnc then add_pci_device ports bus slot fnc pci else pci)

pub scan_slots : ℕ → Ports → (bus slot : ℕ) → Pci → Pci
unfolding scan_functions
scan_slots zero ports bus slot pci = pci
scan_slots (suc n) ports bus slot pci =
    scan_slots n ports bus (slot + 1)
      (if pci_is_present ports bus slot 0 then scan_functions 8 ports bus slot 0 pci else pci)

pub scan_buses : ℕ → Ports → (bus : ℕ) → Pci → Pci
unfolding scan_slots
scan_buses zero ports bus pci = pci
scan_buses (suc n) ports bus pci = scan_buses n ports (bus + 1) (scan_slots 32 ports bus 0 pci)

unfoldable pub setup_pci : Ports → Pci → Pci
unfolding scan_buses
setup_pci ports pci = scan_buses 256 ports 0 pci

unfoldable pub pci_register_driver : PciDriver → Pci → ℤ × Pci
pci_register_driver drv pci = elim (claim drv pci.drivers) [
  | none ↦ (neg eagain, pci)
  | some drivers ↦ (pos 0, record pci { drivers = drivers })
]
