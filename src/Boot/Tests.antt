-- ===== src/Boot/Tests.antt =====
-- kernel/main.c on a machine with one IDE controller and one disk.
use ulmix_i.Base.{
  ℕ, ◌*◌, ltb, get_elem?, ◌+◌, ◌-◌, ◌/◌, ◌%◌, ◌^◌, ◌<◌, ◌≡◌, refl, Bool, true, false, Option, none,
  some, List, [], ◌∷◌, arith, ◌==◌, if◌then◌else◌, replicate,
}
use ulmix_i.Base.Int.{ℤ, pos, negsuc}
use ulmix_i.Base.Memory.{Mem}
use ulmix_i.Base.Slots.{claim}
use ulmix_i.Heap.{Kheap}
use ulmix_i.Devices.{Gendisk, Hd, register_blkdev, read_entry, is_mbr, max_devices}
use ulmix_i.Devices.Partitions.{partition}
use ulmix_i.Vfs.{Dirs, root_dir, namei, found}
use ulmix_i.Pci
use ulmix_i.Pci.{
  Pcidev, setup_pci, pci_register_driver, pci_cfg_read32, config_address, pci_cfg_read16,
  pci_cfg_read8,
}
use ulmix_i.Vga.{Vga}
use ulmix_i.Ext2.{
  Ext2Fs, mounted_fs, hdd_read, gdt_size_sectors, read_superblock, read_group, read_inode,
}
use ulmix_i.Ext2.Inodes.{HasInode}
use ulmix_i.Ext2.Entries.{Fresh, Item}
use ulmix_i.Ext2.Stored.{Stored, first_block, inode_on}
use ulmix_i.Ext2.Sample.{disk, items, memory}
use ulmix_i.Ext2.Super.{superblock_on}
use ulmix_i.Ata
use ulmix_i.Ata.{
  Identified, answered, Probed, probed, ata_identify, outs, identify_writes, wait_bsy, wait_answer,
  repinsw, identify_ready, identify_data, ata_pci_probe, probe_loop, get_ports, attach,
  address_writes, wait_drq, read_loop, read_sectors, ata_read, new_disk,
}
use ulmix_i.Ata.Simulated.{World, primary, primary-Conforms, idle}
use ulmix_i.Ata.First.{master}
use ulmix_i.Boot.{final_heap, Machine, init_ata, kmain, probe_all}
use ulmix_i.Memscan.Regions.{Entry}
use ulmix_i.Boot.Early.{Loaded}
use ulmix_i.Boot.Root.{HasFs}
use ulmix_i.Boot.Files.{entry_for, kmain-namei}
use ulmix_i.Boot.Start.{Boots, found_disk}

-- Vendor 0x8086 with device 0x7010 and class 1 at function 1 of slot 1, and a bridge at function 0.
abbrev one_controller : Pci.Ports
one_controller config_address =
    if config_address % 2 ^ 31 == 0x800
    then 0x70008086
    else if config_address % 2 ^ 31 == 0x900
    then 0x70108086
    else if config_address % 2 ^ 31 == 0x908
    then 0x01018000
    else if config_address / 256 % 2 ^ 16 == 9
    then 0
    else 0xffffffff

abbrev gendisk : ℕ → Gendisk
gendisk i = record {
  self = 100 + i;
  major = 0;
  io_size = 0;
  capacity = 0;
  part_count = 0;
  part_list = replicate 4 (record { sect_offset = 0; sect_count = 0; fs_type = 0; bd = 0 });
  read = λ sectors lba. (negsuc 0, λ a. 0);
}

abbrev machine : Machine World
machine = record {
  pci_ports = one_controller;
  ata_ports = primary disk;
  world = idle;
  gendisks = λ call i. gendisk i;
  old = λ a. 0;
  memory = memory;
}

abbrev controller : Pcidev
controller = record {
  bus_no = 0;
  slot_no = 1;
  function_no = 1;
  device_id = 0x7010;
  vendor_id = 0x8086;
  revision = 0;
  prog_if = 0x80;
  subclass = 1;
  class = 1;
}

found_controller : (setup_pci one_controller init_ata).probes ≡ (0, controller) ∷ []
unfolding init_ata setup_pci pci_register_driver claim pci_cfg_read32 config_address pci_cfg_read16
    pci_cfg_read8
found_controller = refl

-- What ata_identify() leaves, and the table behind all probes.
abbrev world_of : Identified World → World
world_of (answered is_ata w identity) = w
world_of Ata.stuck = idle

abbrev identity_of : Identified World → Mem
identity_of (answered is_ata w identity) = identity
identity_of Ata.stuck = λ a. 0

abbrev identified : Identified World
identified = ata_identify (primary disk) 3 (master controller (λ a. 0)) idle

abbrev is_identified : Identified World → Bool
is_identified (answered is_ata w identity) = is_ata
is_identified Ata.stuck = false

is_identified-answered :
    (r : Identified World) → is_identified r ≡ true → r ≡ answered true (world_of r) (identity_of r)
is_identified-answered (answered true w identity) e = refl
is_identified-answered (answered false w identity) e = absurd (cc e)
is_identified-answered Ata.stuck e = absurd (cc e)

identified_lem : identified ≡ answered true (world_of identified) (identity_of identified)
unfolding ata_identify outs identify_writes wait_bsy wait_answer repinsw identify_ready
    identify_data
identified_lem = is_identified-answered identified refl

abbrev status_of : Probed World → ℤ
status_of (probed status w bds) = status
status_of Ata.panicked = pos 1
status_of Ata.waiting = pos 1

abbrev world_behind : Probed World → World
world_behind (probed status w bds) = w
world_behind Ata.panicked = idle
world_behind Ata.waiting = idle

abbrev table_of : Probed World → List (Option Gendisk)
table_of (probed status w bds) = bds
table_of Ata.panicked = []
table_of Ata.waiting = []

abbrev run : Probed World
run = probe_all 3 machine 0 ((0, controller) ∷ []) idle (replicate max_devices none)

run-probed : run ≡ probed (status_of run) (world_behind run) (table_of run)
unfolding probe_all ata_pci_probe probe_loop get_ports ata_identify attach identify_ready
    identify_data outs identify_writes address_writes wait_answer wait_bsy wait_drq repinsw
    read_loop read_sectors ata_read new_disk register_blkdev claim
run-probed = refl

small : (a : ℕ) → disk a < 256
small a = ground arith

abbrev partition_1 : Hd
partition_1 = partition (gendisk 0) disk 0

abbrev found_gendisk : Gendisk
found_gendisk = found_disk 3 machine controller (identity_of identified) (world_of identified)

abbrev fs_of : Option Ext2Fs → Ext2Fs
fs_of none = record {
  superblock = superblock_on disk partition_1;
  partition = partition_1;
  block_size = 0;
  gd_count = 0;
  group_descriptors = λ a. 0;
}
fs_of (some fs) = fs

abbrev fs : Ext2Fs
fs = fs_of (mounted_fs found_gendisk.read partition_1 (superblock_on disk partition_1))

fs-mounted_fs : mounted_fs found_gendisk.read partition_1 (superblock_on disk partition_1) ≡ some fs
unfolding mounted_fs hdd_read gdt_size_sectors read_superblock read_entry
fs-mounted_fs = refl

has_root : HasInode fs 2
unfolding mounted_fs hdd_read gdt_size_sectors read_superblock read_entry read_group read_inode
    new_disk ata_read address_writes outs wait_bsy wait_drq repinsw read_loop read_sectors
    ata_identify identify_writes wait_answer identify_ready identify_data
has_root = record {
  first = omega arith;
  last = omega arith;
  size = refl;
  groups = omega arith;
  whole = refl;
  described = omega arith;
  word = omega arith;
  below = omega arith;
}

has_file : HasInode fs 3
unfolding mounted_fs hdd_read gdt_size_sectors read_superblock read_entry read_group read_inode
    new_disk ata_read address_writes outs wait_bsy wait_drq repinsw read_loop read_sectors
    ata_identify identify_writes wait_answer identify_ready identify_data
has_file = record {
  first = omega arith;
  last = omega arith;
  size = refl;
  groups = omega arith;
  whole = refl;
  described = omega arith;
  word = omega arith;
  below = omega arith;
}

items-Stored : Stored fs.block_size disk (first_block disk fs 2) 0 items
unfolding mounted_fs hdd_read gdt_size_sectors read_superblock read_entry read_group read_inode
    new_disk ata_read address_writes outs wait_bsy wait_drq repinsw read_loop read_sectors
    ata_identify identify_writes wait_answer identify_ready identify_data
items-Stored = (
  (refl, (refl, (refl, (refl, (refl, (refl, (refl, (refl, (refl, tt))))))))),
  omega arith,
  refl,
  omega arith,
  (
    (refl, (refl, (refl, (refl, (refl, (refl, (refl, (refl, (refl, (refl, tt)))))))))),
    omega arith,
    refl,
    omega arith,
    refl,
  ),
)

found-HasFs : HasFs found_gendisk.read disk partition_1 fs items
unfolding mounted_fs hdd_read gdt_size_sectors read_superblock read_entry read_group read_inode
    new_disk ata_read address_writes outs wait_bsy wait_drq repinsw read_loop read_sectors
    ata_identify identify_writes wait_answer identify_ready identify_data
found-HasFs = record {
  linux = refl;
  word = omega arith;
  signature = refl;
  described = fs-mounted_fs;
  block = omega arith;
  groups = omega arith;
  root = has_root;
  below = omega arith;
  stored = items-Stored;
  inodes = (has_root, (has_file, tt));
}

machine-Boots : Boots 3 machine disk fs items
unfolding primary-Conforms ata_identify identify_writes outs wait_bsy wait_answer repinsw
    identify_ready identify_data is_mbr read_entry
machine-Boots = record {
  driver = 0;
  pci = controller;
  later = [];
  identity = identity_of identified;
  w = world_of identified;
  status = status_of run;
  w' = world_behind run;
  bds = table_of run;
  slow = 2;
  probes = found_controller;
  ide = refl;
  identified = identified_lem;
  conforms = primary-Conforms disk small;
  first = refl;
  ready = refl;
  enough = omega arith;
  all = run-probed;
  four = refl;
  fresh = refl;
  signed = refl;
  used = refl;
  has = found-HasFs;
}

memory-Fresh : Fresh memory root_dir root_dir
memory-Fresh = record {
  not_dir = λ k. omega arith;
  not_parent = λ k. omega arith;
  null = λ k. refl;
}

-- The text "/" at 5, and another text behind it.
abbrev texts : Mem
texts a = if a == 5 then b'/' else if a == 7 then b'm' else 0

abbrev no_load : ℕ → Dirs Ext2Fs → Dirs Ext2Fs
no_load dir dirs = dirs

abbrev no_dirs : Dirs Ext2Fs
no_dirs dir = record {
  inode_no = 0;
  parent = 0;
  fs_info = none;
  mnt_point = 0;
  entry_inode_no = 0;
  entry_parent = 0;
  entries = [];
}

abbrev no_heap : Kheap
no_heap = record { entries = λ a. none; heap_start = 0; locked = false; log = [] }

abbrev screen : Vga
screen = record { mem = λ a. 0; current_color = 0; text_x = 0; text_y = 0; setup = false }

-- "/" at 5, with a byte 0 behind it, and "/hi" at 10.
abbrev paths : Mem
paths a =
    if a == 5
    then b'/'
    else if a == 10
    then b'/'
    else if a == 11
    then b'h'
    else if a == 12
    then b'i'
    else 0

abbrev dot : Item
dot = record { inode = 2; rec_len = 12; file_type = 2; name = b'.' ∷ [] }

abbrev hi : Item
hi = record { inode = 3; rec_len = 1012; file_type = 1; name = b'h' ∷ b'i' ∷ [] }

kmain-namei_example :
    (store : Dirs Ext2Fs) × (kmain 3 no_load machine paths 5 no_heap screen no_dirs
      ≡ final_heap store 0xc0000000 (0xffffffff - 0xc0000000) no_heap)
    × (namei 9 no_load paths 10 store ≡ found (entry_for memory (inode_on disk fs) 1 hi) store)
kmain-namei_example =
    kmain-namei 3 machine disk fs (dot ∷ []) hi [] no_load paths 5 10 9 no_heap screen no_dirs
      machine-Boots memory-Fresh (omega arith) (refl, omega arith, refl) refl (refl, tt)
      (refl, (refl, tt)) (omega arith) (omega arith) (omega arith)
      (refl, omega arith, (refl, omega arith, (refl, omega arith, refl)))

-- "/" at 5, and at 100 a map of two regions: 640 KB at 0, and from 1 MB to 128 MB.
abbrev boot_map : List ℕ
boot_map =
    20 ∷ 0 ∷ 0 ∷ 0 ∷ 0 ∷ 0 ∷ 0 ∷ 0 ∷ 0 ∷ 0 ∷ 0 ∷ 0 ∷ 0 ∷ 0 ∷ 10 ∷ 0 ∷ 0 ∷ 0 ∷ 0 ∷ 0 ∷ 1 ∷ 0 ∷ 0 ∷ 0
    ∷ 20 ∷ 0 ∷ 0 ∷ 0 ∷ 0 ∷ 0 ∷ 16 ∷ 0 ∷ 0 ∷ 0 ∷ 0 ∷ 0 ∷ 0 ∷ 0 ∷ 0xf0 ∷ 7 ∷ 0 ∷ 0 ∷ 0 ∷ 0 ∷ 1 ∷ 0 ∷ 0
    ∷ 0 ∷ []

abbrev loaded_memory : Mem
loaded_memory a =
    if a == 5
    then b'/'
    else if ltb a 100
    then 0
    else elim (get_elem? boot_map (a - 100)) [ none ↦ 0 | some c ↦ c ]

abbrev loaded : Loaded
loaded = record {
  bss_start = 50;
  bss_length = 2;
  bss_end = 52;
  mmap = 100;
  mmap_length = 48;
  tss = 60;
  exc0 = 0x101000;
  exc_len = 16;
  irq0 = 0x102000;
  irq_len = 16;
  syscall_entry = 0x103000;
  idt = λ i. record { offset_low = 0; selector = 0; zero_byte = 0; type = 0; offset_high = 0 };
  cpuid = some (0, 0x40);
  sysinfo = record { flags_loaded = false; ft_flags_edx = 0; ft_flags_ecx = 0 };
  memory = record {
    page_dir0 = 0x1000;
    ptr_table = 0x2000;
    held = λ a. none;
    fresh = λ a. 0x3000 + a * 0x1000;
  };
  cr0 = 1;
  cr4 = 0;
  mb = 300;
  multiboot = 200;
  heap = no_heap;
}

abbrev regions : List Entry
regions =
    record { entry_size = 20; base_addr = 0; size = 655360 }
    ∷ record { entry_size = 20; base_addr = 2 ^ 20; size = 127 * 2 ^ 20 }
    ∷ []
