-- ===== src/Ata.antt =====
-- drivers/ata.c: the driver of the IDE controller. The ports are a parameter: `W` is the world behind them,
-- which every access may change. A loop that waits for the drive takes fuel. kmalloc() is taken to succeed.
pub mod Drive
pub mod Transfer
pub mod Read
pub mod Probe
pub mod First
pub mod Simulated
mod Tests
use ulmix_i.Base.{
  ℕ, zero, suc, ◌+◌, ◌*◌, ◌/◌, ◌%◌, ◌^◌, Bool, true, false, not, ◌&&◌, ◌||◌, Option, none, some,
  List, [], ◌∷◌, ltb, ◌==◌, if◌then◌else◌,
}
use ulmix_i.Base.Bits.{has_bit}
use ulmix_i.Base.Int.{ℤ, pos, neg, negsuc, is_negative, signed32}
use ulmix_i.Base.Memory.{Mem, write}
use ulmix_i.Devices.{Gendisk, register_blkdev}
use ulmix_i.Errno.{eio, enosys}
use ulmix_i.Pci.{Pcidev}

pub record Ports (W : Type 0) : Type 0 where
  pub inb : W → (port : ℕ) → ℕ × W
  pub outb : W → (port value : ℕ) → W
  pub insw : W → (port : ℕ) → ℕ × W

-- struct ata_dev_struct, without the lock, which all drives of the controller share.
pub record AtaDev : Type 0 where
  pub pci : Pcidev
  pub type : ℕ
  pub base_io : ℕ
  pub ctrl_io : ℕ
  pub identity : Mem

-- The registers, from `base_io` on.
abbrev pub ata_data : ℕ
ata_data = 0

abbrev pub ata_scount : ℕ
ata_scount = 2

abbrev pub ata_lbalo : ℕ
ata_lbalo = 3

abbrev pub ata_lbamid : ℕ
ata_lbamid = 4

abbrev pub ata_lbahi : ℕ
ata_lbahi = 5

abbrev pub ata_dr_hd : ℕ
ata_dr_hd = 6

-- ATA_STATUS when it is read, ATA_COMMND when it is written.
abbrev pub ata_status : ℕ
ata_status = 7

abbrev pub cmd_identify : ℕ
cmd_identify = 0xec

abbrev pub cmd_read_ext : ℕ
cmd_read_ext = 0x24

-- The command and control ports; `none` for -ENOSYS.
unfoldable pub get_ports : (controller type : ℕ) → Option (ℕ × ℕ)
get_ports controller type =
    if not (controller == 0)
    then none
    else if ltb type 2
    then some (0x1f0, 0x3f6)
    else some (0x170, 0x376)

-- What ata_identify() sends, in order.
unfoldable pub identify_writes : AtaDev → List (ℕ × ℕ)
identify_writes dev =
    (dev.base_io + ata_dr_hd, (if dev.type % 2 == 0 then 0xa0 else 0xb0))
    ∷ (dev.base_io + ata_scount, 0)
    ∷ (dev.base_io + ata_lbalo, 0)
    ∷ (dev.base_io + ata_lbamid, 0)
    ∷ (dev.base_io + ata_lbahi, 0)
    ∷ (dev.base_io + ata_status, cmd_identify)
    ∷ []

-- What ata_read() sends before the command. `size_t` has four bytes.
unfoldable pub address_writes : AtaDev → (count offset : ℕ) → List (ℕ × ℕ)
address_writes dev count offset =
    (dev.base_io + ata_dr_hd, (if dev.type % 2 == 0 then 0x40 else 0x50))
    ∷ (dev.base_io + ata_scount, count / 2 ^ 8 % 2 ^ 8)
    ∷ (dev.base_io + ata_lbalo, offset / 2 ^ 24 % 2 ^ 8)
    ∷ (dev.base_io + ata_lbamid, 0)
    ∷ (dev.base_io + ata_lbahi, 0)
    ∷ (dev.base_io + ata_scount, count % 2 ^ 8)
    ∷ (dev.base_io + ata_lbalo, offset % 2 ^ 8)
    ∷ (dev.base_io + ata_lbamid, offset / 2 ^ 8 % 2 ^ 8)
    ∷ (dev.base_io + ata_lbahi, offset / 2 ^ 16 % 2 ^ 8)
    ∷ []

-- What ata_read() does: it returns, with the world, the lock and the memory, or waits for ever.
pub data Outcome (W : Type 0) : Type 0 where
  returned : ℤ → W → (locked : Bool) → Mem → Outcome W
  hung : Outcome W

-- What ata_identify() does: it returns 0 or 1, with the world and `dev->data`, or waits for ever.
pub data Identified (W : Type 0) : Type 0 where
  answered : Bool → W → Mem → Identified W
  stuck : Identified W

-- What ata_pci_probe() does.
pub data Probed (W : Type 0) : Type 0 where
  probed : ℤ → W → List (Option Gendisk) → Probed W
  panicked waiting : Probed W

-- mutex_unlock() and `return count`, which is a ssize_t.
abbrev pub finish_read : {W : Type 0} → (count : ℕ) → Option (W × Mem) → Outcome W
finish_read count none = hung
finish_read count (some (w, m)) = returned (signed32 count) w false m

-- What a read leaves in a buffer at address 0.
abbrev pub answer : {W : Type 0} → (old : Mem) → Outcome W → ℤ × Mem
answer old (returned status w locked m) = (status, m)
answer old hung = (negsuc 0, old)

-- The world behind the read with which register_blkdev() looks for partitions.
abbrev pub after_scan : {W : Type 0} → Outcome W → List (Option Gendisk) → Probed W
after_scan (returned status w locked m) bds = probed (pos 0) w bds
after_scan hung bds = waiting

pub ata_write : ℤ
ata_write = neg enosys

module _ {W : Type 0} (ports : Ports W) where
  unfoldable pub outs : W → List (ℕ × ℕ) → W
  outs w [] = w
  outs w ((port, value) ∷ writes) = outs (ports.outb w port value) writes

  unfoldable pub wait_bsy : ℕ → W → (iobase : ℕ) → Option W
  wait_bsy zero w iobase = none
  wait_bsy (suc fuel) w iobase =
      let (status, w') = ports.inb w (iobase + ata_status) in
      let rest = wait_bsy fuel w' iobase in if has_bit status 7 then rest else some w'

  unfoldable pub wait_drq : ℕ → W → (iobase : ℕ) → Option W
  wait_drq zero w iobase = none
  wait_drq (suc fuel) w iobase =
      let (status, w') = ports.inb w (iobase + ata_status) in
      let rest = wait_drq fuel w' iobase in if not (has_bit status 3) then rest else some w'

  -- The loop of ata_identify() that waits for DRQ or ERROR.
  unfoldable pub wait_answer : ℕ → W → (iobase : ℕ) → Option W
  wait_answer zero w iobase = none
  wait_answer (suc fuel) w iobase =
      let (status, w') = ports.inb w (iobase + ata_status) in
      let rest = wait_answer fuel w' iobase in
      if not (has_bit status 3 || has_bit status 0) then rest else some w'

  -- `rep insw`, which stores words with their low byte first.
  unfoldable pub repinsw : ℕ → W → Mem → (port buf : ℕ) → W × Mem
  repinsw zero w m port buf = (w, m)
  repinsw (suc n) w m port buf =
      let (v, w') = ports.insw w port in
      repinsw n w' (write (write m buf (v % 256)) (buf + 1) (v / 256 % 256)) port (buf + 2)

  -- The loop of ata_read(), with `count` sectors to go.
  unfoldable pub read_loop : (count fuel : ℕ) → W → Mem → (base_io buffer : ℕ) → Option (W × Mem)
  unfolding wait_bsy wait_drq repinsw
  read_loop zero fuel w m base_io buffer = some (w, m)
  read_loop (suc count) fuel w m base_io buffer = elim (wait_bsy fuel w base_io) [
    | none ↦ none
    | some w1 ↦ elim (wait_drq fuel w1 base_io) [
      | none ↦ none
      | some w2 ↦
          (let (w3, m') = repinsw 256 w2 m (base_io + ata_data) buffer in
            read_loop count fuel w3 m' base_io (buffer + 512))
    ]
  ]

  -- From wait_bsy() on, where `w` is the world behind the registers.
  unfoldable pub read_sectors : (count fuel : ℕ) → W → Mem → (base_io buffer : ℕ) → Option (W × Mem)
  unfolding read_loop
  read_sectors count fuel w m base_io buffer = elim (wait_bsy fuel w base_io) [
    | none ↦ none
    | some w' ↦
        read_loop count fuel (ports.outb w' (base_io + ata_status) cmd_read_ext) m base_io buffer
  ]

  -- `locked` says whether the lock of the controller is taken, which mutex_lock() then waits for.
  unfoldable pub ata_read :
      ℕ → AtaDev → (locked : Bool) → W → Mem → (buffer count offset : ℕ) → Outcome W
  unfolding outs read_sectors
  ata_read fuel dev locked w m buffer count offset =
      if count == 0
      then returned (pos 0) w locked m
      else if locked
      then hung
      else finish_read count
          (read_sectors count fuel (outs w (address_writes dev count offset)) m dev.base_io buffer)

  -- The end of ata_identify(), behind its last loop.
  unfoldable pub identify_data : Option W → (base_io : ℕ) → Mem → Identified W
  identify_data none base_io identity = stuck
  identify_data (some w) base_io identity =
      let (status, w1) = ports.inb w (base_io + ata_status) in
      let (w2, identity') = repinsw 256 w1 identity (base_io + ata_data) 0 in
      if has_bit status 0 then answered false w1 identity else answered true w2 identity'

  -- ata_identify() behind wait_bsy(): of a drive that is not ATA, one of the two registers is not 0.
  unfoldable pub identify_ready : ℕ → Option W → (base_io : ℕ) → Mem → Identified W
  unfolding wait_answer identify_data
  identify_ready fuel none base_io identity = stuck
  identify_ready fuel (some w) base_io identity =
      let (mid, w1) = ports.inb w (base_io + ata_lbamid) in
      let (hi, w2) = ports.inb w1 (base_io + ata_lbahi) in
      if not (mid == 0)
      then answered false w1 identity
      else if not (hi == 0)
      then answered false w2 identity
      else identify_data (wait_answer fuel w2 base_io) base_io identity

  unfoldable pub ata_identify : ℕ → AtaDev → W → Identified W
  unfolding identify_ready
  ata_identify fuel dev w =
      let (status, w1) = ports.inb (outs w (identify_writes dev)) (dev.base_io + ata_status) in
      if status == 0
      then answered false w1 dev.identity
      else identify_ready fuel (wait_bsy fuel w1 dev.base_io) dev.base_io dev.identity

  -- The disk that is registered; `memory` is what kmalloc() gave, in which the number of partitions is
  -- not set. Its `read` is that of the drive as it is in the world `w`.
  unfoldable pub new_disk : ℕ → AtaDev → W → (old : Mem) → (memory : Gendisk) → Gendisk
  unfolding ata_read
  new_disk fuel dev w old memory = record memory {
    capacity = 0;
    io_size = 512;
    major = 4;
    read = λ count lba. answer old (ata_read fuel dev false w old 0 count lba);
  }

  -- The body of the loop of ata_pci_probe() behind ata_identify().
  unfoldable pub attach :
      ℕ
      → AtaDev
      → (old : Mem) → (memory : Gendisk) → Identified W
      → List (Option Gendisk)
      → Probed W
  unfolding new_disk
  attach fuel dev old memory stuck bds = waiting
  attach fuel dev old memory (answered false w identity) bds = probed (pos 0) w bds
  attach fuel dev old memory (answered true w identity) bds =
      let (status, bds') =
        register_blkdev (new_disk fuel (record dev { identity = identity }) w old memory) bds in
      if is_negative status
      then panicked
      else after_scan (ata_read fuel (record dev { identity = identity }) false w old 0 1 0) bds'

  -- The loop over the drives, from drive `i` on, with `n` to go. ata_identify() writes all of `ata_dev.data` for
  -- a drive that it finds, so what stood in it before does not matter.
  unfoldable pub probe_loop :
      (n i fuel : ℕ)
      → Pcidev
      → (old : Mem) → (memory : ℕ → Gendisk) → W
      → List (Option Gendisk)
      → Probed W
  unfolding get_ports ata_identify attach
  probe_loop zero i fuel pci old memory w bds = probed (pos 0) w bds
  probe_loop (suc n) i fuel pci old memory w bds = elim (get_ports 0 i) [
    | none ↦ probed (neg eio) w bds
    | some (base_io, ctrl_io) ↦
        (let dev : AtaDev = record {
          pci = pci;
          type = i;
          base_io = base_io;
          ctrl_io = ctrl_io;
          identity = old;
        } in
          elim (attach fuel dev old (memory i) (ata_identify fuel dev w) bds) [
            | probed status w' bds' ↦ probe_loop n (i + 1) fuel pci old memory w' bds'
            | panicked ↦ panicked
            | waiting ↦ waiting
          ])
  ]

  unfoldable pub ata_pci_probe :
      ℕ → Pcidev → (old : Mem) → (memory : ℕ → Gendisk) → W → List (Option Gendisk) → Probed W
  unfolding probe_loop
  ata_pci_probe fuel dev old memory w bds =
      if not (dev.class == 1) && not (dev.subclass == 1)
      then probed (neg enosys) w bds
      else probe_loop 4 0 fuel dev old memory w bds

-- The table of `ata_driver`, with its pair of zeros at the end.
abbrev pub ata_pcidevices : List (ℕ × ℕ)
ata_pcidevices = (0x8086, 0x7111) ∷ (0x8086, 0x7010) ∷ (0, 0) ∷ []
