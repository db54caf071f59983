-- ===== src/Ata/Tests.antt =====
-- drivers/ata.c with a drive at the primary command block that says BSY twice in a row.
use ulmix_i.Base.{
  ℕ, ◌+◌, ◌%◌, ◌<◌, ◌≡◌, refl, false, ◌||◌, Option, none, some, List, [], ◌∷◌, arith, ◌==◌,
  if◌then◌else◌,
}
use ulmix_i.Base.Int.{pos, negsuc}
use ulmix_i.Base.Memory.{Mem}
use ulmix_i.Base.Slots.{claim}
use ulmix_i.Devices.{Gendisk, register_blkdev}
use ulmix_i.Pci.{Pcidev}
use ulmix_i.Ata.{
  Ports, AtaDev, ata_pci_probe, probe_loop, get_ports, ata_identify, attach, identify_ready,
  identify_data, outs, address_writes, wait_answer, wait_bsy, wait_drq, repinsw, read_loop,
  read_sectors, new_disk, Probed, panicked, waiting, identify_writes, probed, ata_read,
}
use ulmix_i.Ata.Simulated.{primary, primary-Conforms, idle}
use ulmix_i.Ata.Read.{ReadInto, ata_read-ReadInto}

abbrev disk : Mem
disk a = a % 251

small : (a : ℕ) → disk a < 256
small a = omega arith

dev_pci : Pcidev
dev_pci = record {
  bus_no = 0;
  slot_no = 1;
  function_no = 1;
  device_id = 0x7010;
  vendor_id = 0x8086;
  revision = 0;
  prog_if = 0x80;
  subclass = 1;
  class = 1;
}

abbrev master : AtaDev
master = record { pci = dev_pci; type = 0; base_io = 0x1f0; ctrl_io = 0x3f6; identity = λ a. 0 }

-- Two sectors from sector 3 on.
ata_read-ReadInto_example :
    ReadInto master
      (primary-Conforms disk small)
      (λ a. 0)
      1000
      2
      3
      (ata_read (primary disk) 3 master false idle (λ a. 0) 1000 2 3)
unfolding primary-Conforms
ata_read-ReadInto_example =
    ata_read-ReadInto master (primary-Conforms disk small) 3 idle (λ a. 0) 1000 2 3 refl
      (omega arith) refl (omega arith) (omega arith)

-- A disk that is there already, and a drive at each of the four places, all of whose words are 0.
abbrev blank : Gendisk
blank = record {
  self = 0;
  major = 4;
  io_size = 512;
  capacity = 0;
  part_count = 0;
  part_list = [];
  read = λ n lba. (negsuc 0, λ a. 0);
}

abbrev table : List (Option Gendisk)
table = some blank ∷ none ∷ none ∷ none ∷ none ∷ []

abbrev four : Ports ℕ
four = record {
  inb = λ w port. (if port == 0x1f7 || port == 0x177 then 0x48 else 0, w);
  outb = λ w port value. w;
  insw = λ w port. (0, w);
}

abbrev table_of : Probed ℕ → List (Option Gendisk)
table_of (probed status w bds) = bds
table_of panicked = []
table_of waiting = []

abbrev run : Probed ℕ
run = ata_pci_probe four 1 dev_pci (λ a. 0) (λ i. record blank { self = 100 + i }) 0 table

run-probed : run ≡ probed (pos 0) 0 (table_of run)
unfolding ata_pci_probe probe_loop get_ports ata_identify attach identify_ready identify_data outs
    dev_pci identify_writes address_writes wait_answer wait_bsy wait_drq repinsw read_loop
    read_sectors ata_read new_disk register_blkdev claim
run-probed = refl
