-- ===== src/Boot.antt =====
-- kernel/main.c and kernel/iosetup.c: the start of the system, from the drivers to the root directory. What the
-- messages print is left out. The heap of kmalloc() is a parameter, as in the parts that are called.
pub mod Disks
pub mod Partitions
pub mod Root
pub mod Start
pub mod Files
pub mod Early
mod Tests
use ulmix_i.Base.{
  ℕ, ◌+◌, ◌-◌, Bool, true, false, Option, none, some, List, [], ◌∷◌, ◌==◌, if◌then◌else◌, replicate,
}
use ulmix_i.Base.Int.{ℤ, pos, neg, is_negative}
use ulmix_i.Base.Memory.{Mem}
use ulmix_i.Base.Slots.{find}
use ulmix_i.Errno.{eio}
use ulmix_i.Heap.{Kheap}
use ulmix_i.Devices.{Hd, Gendisk, max_devices}
use ulmix_i.Vfs.{Dirs, setup_fs}
use ulmix_i.Fs.{Fs, Mounted, returned, undefined, register_fs, do_mount}
use ulmix_i.Pci
use ulmix_i.Pci.{Pcidev, Pci, PciDriver, pci_register_driver, setup_pci}
use ulmix_i.Vga.{Vga, init_vga}
use ulmix_i.Ext2.{Read, Ext2Fs, ext2_probe, ext2_mount}
use ulmix_i.Ext2
use ulmix_i.Ata
use ulmix_i.Ata.{Probed, ata_pci_probe, ata_pcidevices}

-- The function `read` of the disk at an address.
pub disk_read : List (Option Gendisk) → (bd : ℕ) → Read
disk_read bd_list bd = elim (find (λ d. d.self == bd) bd_list) [
  | none ↦ λ sectors lba. (neg eio, λ a. 0)
  | some d ↦ d.read
]

abbrev succeeds : ℤ → Bool
succeeds (pos n) = n == 0
succeeds z = false

-- A return, or what is none.
abbrev pub mounted : Ext2.Result → Mounted Ext2Fs
mounted (Ext2.returned status store) = returned status store
mounted (Ext2.stopped how) = undefined

-- `ext2fs`, with the disks as they are when it is called.
pub ext2fs : ℕ → List (Option Gendisk) → Ext2.Memory → Fs Ext2Fs
unfolding disk_read
ext2fs fuel bd_list memory = record {
  mbr_id = 0x83;
  fs_probe = λ partition. succeeds (ext2_probe (disk_read bd_list partition.bd) partition);
  fs_mount = λ partition mnt_point dirs.
      mounted (ext2_mount fuel (disk_read bd_list) memory partition mnt_point dirs);
}

-- init_ext2() on the empty table.
pub init_ext2 : ℕ → List (Option Gendisk) → Ext2.Memory → List (Option (Fs Ext2Fs))
unfolding ext2fs
init_ext2 fuel bd_list memory = (register_fs (ext2fs fuel bd_list memory) (replicate 16 none)).1

abbrev pub ata_driver : PciDriver
ata_driver = record { ids = ata_pcidevices; driver_probe = 0 }

-- init_ata() on the empty tables of pci.c.
pub init_ata : Pci
init_ata =
    (pci_register_driver ata_driver (record {
      devices = [];
      drivers = replicate 128 none;
      probes = [];
      device_index = 0;
      in_bounds = true;
    })).1

-- What the machine is: its PCI bus, the ports of the IDE controller with the world behind them, and what
-- kmalloc() gives: the memory of the disks, for each call of ata_pci_probe() and each drive, that of a sector, and
-- that of the directories.
pub record Machine (W : Type 0) : Type 0 where
  pub pci_ports : Pci.Ports
  pub ata_ports : Ata.Ports W
  pub world : W
  pub gendisks : (call drive : ℕ) → Gendisk
  pub old : Mem
  pub memory : Ext2.Memory

-- The calls of ata_pci_probe(), which setup_pci() makes while it scans; the scan does not touch the disks.
pub probe_all :
    {W : Type 0}
    → ℕ
    → Machine W
    → (call : ℕ) → List (ℕ × Pcidev)
    → W
    → List (Option Gendisk)
    → Probed W
probe_all fuel machine call [] w bd_list = Ata.probed (pos 0) w bd_list
probe_all fuel machine call ((driver, device) ∷ probes) w bd_list =
    elim (ata_pci_probe machine.ata_ports fuel device machine.old (machine.gendisks call) w
      bd_list) [
        | Ata.probed status w' bd_list' ↦ probe_all fuel machine (call + 1) probes w' bd_list'
        | Ata.panicked ↦ Ata.panicked
        | Ata.waiting ↦ Ata.waiting
      ]

-- What iosetup() sets up: the screen, the root directory, and the disks with the world behind them.
pub record Io (W : Type 0) : Type 0 where
  pub screen : Vga
  pub dirs : Dirs Ext2Fs
  pub disks : Probed W

pub iosetup : {W : Type 0} → ℕ → Machine W → Vga → Dirs Ext2Fs → Io W
unfolding init_ata probe_all
iosetup fuel machine screen dirs = record {
  screen = init_vga screen;
  dirs = setup_fs dirs;
  disks =
      probe_all fuel machine 0 (setup_pci machine.pci_ports init_ata).probes machine.world
        (replicate max_devices none);
}

-- How kmain() ends: with the root directory mounted, at its last call, which is setup_heap() with that address and size
-- on the early heap; in the panic that it causes when do_mount() fails, in that of ata_pci_probe(), waiting for a
-- drive, or in what is `undefined`.
pub data Started : Type 0 where
  final_heap : Dirs Ext2Fs → (start_addr max_size : ℕ) → Kheap → Started
  no_root : ℤ → Dirs Ext2Fs → Started
  no_disk waiting lost : Started

-- What kmain() does with the result of do_mount().
pub after_mount : Kheap → Mounted Ext2Fs → Started
after_mount heap (returned err dirs) =
    if is_negative err
    then no_root err dirs
    else final_heap dirs 0xc0000000 (0xffffffff - 0xc0000000) heap
after_mount heap undefined = lost

-- `do_mount(MAJOR_ATA0, 1, "/")`, where `path` is the address of the text. `load` is get_direntries() of vfs.c.
pub mount_root :
    {W : Type 0}
    → ℕ
    → (load : ℕ → Dirs Ext2Fs → Dirs Ext2Fs) → Machine W
    → Mem
    → (path : ℕ) → Kheap
    → Dirs Ext2Fs
    → Probed W
    → Started
unfolding init_ext2 after_mount
mount_root fuel load machine m path heap dirs (Ata.probed status w bd_list) =
    after_mount heap
      (do_mount fuel load bd_list (init_ext2 fuel bd_list machine.memory) m 4 1 path dirs)
mount_root fuel load machine m path heap dirs Ata.panicked = no_disk
mount_root fuel load machine m path heap dirs Ata.waiting = waiting

pub kmain :
    {W : Type 0}
    → ℕ
    → (load : ℕ → Dirs Ext2Fs → Dirs Ext2Fs) → Machine W
    → Mem
    → (path : ℕ) → Kheap
    → Vga
    → Dirs Ext2Fs
    → Started
unfolding iosetup mount_root
kmain fuel load machine m path heap screen dirs =
    let io = iosetup fuel machine screen dirs in
    mount_root fuel load machine m path heap io.dirs io.disks
