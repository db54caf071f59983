-- ===== src/Boot/Start.antt =====
-- kernel/main.c, from the PCI bus to the root directory.
use mathlib.Core.Path.{subst}
use ulmix_i.Base.{
  ℕ, ◌+◌, ◌<◌, ◌≡◌, ◌∙◌, refl, sym, ap, true, false, not, ◌&&◌, Option, none, some, List, [], ◌∷◌,
  arith, ◌==◌, length, replicate,
}
use ulmix_i.Base.Int.{ℤ}
use ulmix_i.Base.Memory.{Mem}
use ulmix_i.Base.Slots.{find}
use ulmix_i.Heap.{Kheap}
use ulmix_i.Devices.{
  Gendisk, max_devices, is_mbr, get_gendisk, get_hdstruct, part, gendisk_partscan,
}
use ulmix_i.Devices.Partitions.{in_use, partition}
use ulmix_i.Devices.Registry.{hdstruct_of}
use ulmix_i.Vfs.{Dirs, root_dir, setup_fs}
use ulmix_i.Pci.{Pcidev, setup_pci}
use ulmix_i.Vga.{Vga}
use ulmix_i.Ext2.{Ext2Fs}
use ulmix_i.Ext2.Inodes.{Reads}
use ulmix_i.Ext2.Entries.{Item, Fresh}
use ulmix_i.Ata.{answered, probed, ata_identify, new_disk}
use ulmix_i.Ata.Drive.{Conforms}
use ulmix_i.Ata.Probe.{Keeps}
use ulmix_i.Ata.First.{Leads, register_blkdev-Leads, master, new_disk-Reads, new_disk-parts}
use ulmix_i.Fs.{do_mount}
use ulmix_i.Boot.{Machine, init_ata, init_ext2, probe_all, iosetup, after_mount, mount_root, kmain}
use ulmix_i.Boot.Disks.{probe_all-first}
use ulmix_i.Boot.Partitions.{hd_at-first, scan_self, scan_major, scan_read}
use ulmix_i.Boot.Root.{HasFs, Ends, mount-Ends}

Leads-get_gendisk :
    (d : Gendisk) (bds : List (Option Gendisk))
    → Leads d bds
    → d.major ≡ 4
    → get_gendisk 4 bds ≡ some d
unfolding get_gendisk find
Leads-get_gendisk d [] l m = absurd l
Leads-get_gendisk d (none ∷ bds) l m = absurd l
Leads-get_gendisk d (some b ∷ bds) l m = rw l (ground arith)

-- The disk that ata_pci_probe() makes of the first drive: `w` is the world behind ata_identify().
abbrev pub found_disk : {W : Type 0} → ℕ → Machine W → Pcidev → (identity : Mem) → (w : W) → Gendisk
found_disk fuel machine pci identity w =
    new_disk machine.ata_ports fuel (record (master pci machine.old) { identity = identity }) w
      machine.old (machine.gendisks 0 0)

-- A machine that starts from the disk `disk`: the first probe of setup_pci() is that of an IDE controller whose
-- first drive conforms to the commands; all probes return; the disk has a master boot record whose first entry
-- is in use, and that partition has the filesystem `fs` with the entries `its` in its root directory.
pub record Boots {W : Type 0} (fuel : ℕ) (machine : Machine W) (disk : Mem) (fs : Ext2Fs)
    (its : List Item) : Type 0 where
  pub driver : ℕ
  pub pci : Pcidev
  pub later : List (ℕ × Pcidev)
  pub identity : Mem
  pub w : W
  pub status : ℤ
  pub w' : W
  pub bds : List (Option Gendisk)
  pub slow : ℕ
  pub probes : (setup_pci machine.pci_ports init_ata).probes ≡ (driver, pci) ∷ later
  pub ide : (not (pci.class == 1) && not (pci.subclass == 1)) ≡ false
  pub identified :
      ata_identify machine.ata_ports fuel (master pci machine.old) machine.world
      ≡ answered true w identity
  pub conforms : Conforms machine.ata_ports 0x1f0 disk slow
  pub first : conforms.unit ≡ 0
  pub ready : conforms.polls w ≡ 0
  pub enough : slow < fuel
  pub all :
      probe_all fuel machine 0 ((driver, pci) ∷ later) machine.world (replicate max_devices none)
      ≡ probed status w' bds
  pub four : length (machine.gendisks 0 0).part_list ≡ 4
  pub fresh : (machine.gendisks 0 0).part_count ≡ 0
  pub signed : is_mbr disk ≡ true
  pub used : in_use disk 0 ≡ true
  pub has :
      HasFs
        (found_disk fuel machine pci identity w).read
        disk
        (partition (machine.gendisks 0 0) disk 0)
        fs
        its

module _ {W : Type 0} (fuel : ℕ) (machine : Machine W) (disk : Mem) (fs : Ext2Fs) (its : List Item)
    (b : Boots fuel machine disk fs its) where
  D : Gendisk
  D = found_disk fuel machine b.pci b.identity b.w

  D-Reads : Reads D.read disk
  unfolding D
  D-Reads =
      new_disk-Reads machine.ata_ports (record (master b.pci machine.old) { identity = b.identity })
        disk b.slow fuel b.conforms b.w machine.old (machine.gendisks 0 0) b.first b.enough b.ready

  D-parts :
      (length D.part_list ≡ 4)
      × (D.part_count ≡ 0)
      × (D.self ≡ (machine.gendisks 0 0).self)
      × (D.major ≡ 4)
  unfolding D
  D-parts =
      let parts =
        new_disk-parts machine.ata_ports fuel
          (record (master b.pci machine.old) { identity = b.identity }) b.w machine.old
          (machine.gendisks 0 0) in
      (ap length parts.0 ∙ b.four, parts.1 ∙ b.fresh, parts.2, parts.3)

  leads : Leads (gendisk_partscan D) b.bds
  unfolding D
  leads =
      subst
        (Keeps machine.ata_ports (Leads (gendisk_partscan D))
          (register_blkdev-Leads (gendisk_partscan D)))
        b.all
        (probe_all-first fuel machine b.driver b.pci b.later b.identity b.w (replicate 31 none)
          b.ide b.identified)

  first_part : get_hdstruct 4 1 b.bds ≡ part (partition (machine.gendisks 0 0) disk 0)
  first_part =
      hdstruct_of (gendisk_partscan D) 1 4 b.bds (
        Leads-get_gendisk (gendisk_partscan D) b.bds leads
          (scan_major D disk D-Reads b.signed D-parts.0 D-parts.1 ∙ D-parts.3))
      ∙ hd_at-first D disk D-Reads b.signed D-parts.0 D-parts.1 b.used
      ∙ ap (λ self. part (record (partition D disk 0) { bd = self })) D-parts.2

  -- kmain() up to the root directory: the drivers find the disk.
  kmain-mount :
      (load : ℕ → Dirs Ext2Fs → Dirs Ext2Fs) (m : Mem) (path : ℕ) (heap : Kheap) (screen : Vga)
      (dirs : Dirs Ext2Fs)
      → kmain fuel load machine m path heap screen dirs
        ≡ after_mount heap (
            do_mount fuel load b.bds
              (init_ext2 fuel b.bds machine.memory)
              m
              4
              1
              path
              (setup_fs dirs))
  unfolding kmain iosetup mount_root
  kmain-mount load m path heap screen dirs = rw (b.probes, b.all, mount_root) refl

-- On a machine that starts from its first disk, kmain() finds the disk on the PCI bus, registers it with its
-- partitions, and looks for the path "/". If the byte behind the NUL of that text is 0, it ends with the
-- root directory being the mount point of the filesystem on the first partition, with exactly the entries that
-- the root directory has on the disk, and at its last call, that of setup_heap() for the final heap; with any other byte, it ends in the panic
-- on ENOENT, although the disk is in order. There is fuel for more than the entries and for each wait for the
-- drive.
pub kmain-Ends :
    {W : Type 0} (fuel : ℕ) (machine : Machine W) (disk : Mem) (fs : Ext2Fs) (its : List Item)
    (load : ℕ → Dirs Ext2Fs → Dirs Ext2Fs) (m : Mem) (path : ℕ) (heap : Kheap) (screen : Vga)
    (dirs : Dirs Ext2Fs)
    → Boots fuel machine disk fs its
    → Fresh machine.memory root_dir root_dir
    → length its < fuel
    → m path ≡ b'/'
    → m (path + 1) ≡ 0
    → Ends machine.memory disk fs its m path heap dirs
        (kmain fuel load machine m path heap screen dirs)
unfolding D
kmain-Ends fuel machine disk fs its load m path heap screen dirs b fresh enough slash alone =
    subst (Ends machine.memory disk fs its m path heap dirs)
      (sym (kmain-mount fuel machine disk fs its b load m path heap screen dirs))
      (mount-Ends fuel b.bds machine.memory (gendisk_partscan d) disk
        (partition (machine.gendisks 0 0) disk 0) fs its (leads fuel machine disk fs its b)
        (sym (D-parts fuel machine disk fs its b).2
          ∙ sym (scan_self d disk reads b.signed four fresh'))
        (subst (λ r. Reads r disk) (sym same) reads)
        (subst (λ r. HasFs r disk (partition (machine.gendisks 0 0) disk 0) fs its) (sym same)
          b.has)
        load m path heap dirs (first_part fuel machine disk fs its b) slash alone fresh enough)
  where
    d : Gendisk
    d = D fuel machine disk fs its b

    reads : Reads d.read disk
    reads = D-Reads fuel machine disk fs its b

    four : length d.part_list ≡ 4
    four = (D-parts fuel machine disk fs its b).0

    fresh' : d.part_count ≡ 0
    fresh' = (D-parts fuel machine disk fs its b).1

    same : (gendisk_partscan d).read ≡ d.read
    same = scan_read d disk reads b.signed four fresh'
