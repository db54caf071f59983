-- ===== src/Ata/Read.antt =====
-- drivers/ata.c: what ata_read() returns, on a drive that conforms and on one that never answers.
use mathlib.Core.Path.{subst, sym}
use ulmix_i.Base.{
  ℕ, zero, suc, ◌+◌, ◌*◌, ◌^◌, ◌%◌, ◌<◌, ◌≤◌, ◌≡◌, ◌∙◌, refl, ap, false, Option, none, some, arith,
}
use ulmix_i.Base.Bits.{has_bit, u32}
use ulmix_i.Base.Int.{pos}
use ulmix_i.Base.Memory.{Mem}
use ulmix_i.Ext2.{Read}
use ulmix_i.Ext2.Inodes.{Reads}
use ulmix_i.Ata.{
  Ports, AtaDev, ata_status, cmd_read_ext, outs, address_writes, wait_bsy, wait_drq, read_loop,
  read_sectors, Outcome, returned, hung, finish_read, ata_read, answer,
}
use ulmix_i.Ata.Drive.{
  Drive, lba, sectors, Addressed, address_writes-Addressed, started, Conforms,
  address_writes-latched, address_writes-lba, address_writes-sectors,
}
use ulmix_i.Ata.Transfer.{
  Copied, Copied-nothing, NotBusy, wait_bsy-NotBusy, Transferred, read_loop-Transferred,
}

ata_read_start :
    {W : Type 0} (ports : Ports W) (fuel : ℕ) (dev : AtaDev) (w : W) (m : Mem)
    (buffer count offset : ℕ)
    → ata_read ports fuel dev false w m buffer (suc count) offset
      ≡ finish_read (suc count) (
          read_sectors ports
            (suc count)
            fuel
            (outs ports w (address_writes dev (suc count) offset))
            m
            dev.base_io
            buffer)
unfolding ata_read
ata_read_start ports fuel dev w m buffer count offset = ground arith

module _ {W : Type 0} {ports : Ports W} (dev : AtaDev) {disk : Mem} {slow : ℕ}
    (c : Conforms ports dev.base_io disk slow) where
  -- From wait_bsy() on.
  read_sectors-Transferred :
      (count fuel offset : ℕ) (w : W) (m : Mem) (buffer : ℕ)
      → slow < fuel
      → c.polls w ≡ 0
      → Addressed (c.drive w) c.unit
      → lba (c.drive w) ≡ offset
      → sectors (c.drive w) ≡ count
      → 0 < count
      → Transferred c
          (512 * offset)
          m
          buffer
          count
          (read_sectors ports count fuel w m dev.base_io buffer)
  unfolding read_sectors
  read_sectors-Transferred count fuel offset w m buffer enough z mine at many one =
      awake (wait_bsy-NotBusy c 0 fuel w z (omega arith))
    where
      awake :
          NotBusy c w (wait_bsy ports fuel w dev.base_io)
          → Transferred c
              (512 * offset)
              m
              buffer
              count
              (read_sectors ports count fuel w m dev.base_io buffer)
      awake (w1, e1, d1, z1) =
          rw (e1, read_sectors)
            (subst
              (λ src. Transferred c src m buffer count (
                read_loop ports count fuel (ports.outb w1 (dev.base_io + ata_status) cmd_read_ext) m
                  dev.base_io buffer))
              {x = 2 * (c.drive (ports.outb w1 (dev.base_io + ata_status) cmd_read_ext)).next}
              (omega (arith, ap (λ (d : Drive). d.next) here, at))
              (read_loop-Transferred c count fuel
                (ports.outb w1 (dev.base_io + ata_status) cmd_read_ext) m buffer enough
                (ground
                  (arith, (c.command w1 z1 (subst (λ d. Addressed d c.unit) (sym d1) mine)).1))
                (omega (arith, ap (λ (d : Drive). d.left) here, many))))
        where
          here :
              c.drive (ports.outb w1 (dev.base_io + ata_status) cmd_read_ext) ≡ started (c.drive w)
          here = (c.command w1 z1 (subst (λ d. Addressed d c.unit) (sym d1) mine)).0 ∙ ap started d1

  -- ata_read() returns `count` with the sectors in the buffer, the rest of the memory as before, the lock
  -- free, and a drive that takes the next command.
  abbrev pub ReadInto : (m : Mem) (buffer count offset : ℕ) → Outcome W → Type 0
  ReadInto m buffer count offset r =
      (w' : W) × (m' : Mem) × (r ≡ returned (pos count) w' false m')
      × (c.polls w' ≡ 0)
      × Copied disk m m' (512 * offset) buffer (512 * count)

  finish_read-ReadInto :
      (count offset : ℕ) (m : Mem) (buffer : ℕ) (r : Option (W × Mem))
      → count ≤ 65536
      → Transferred c (512 * offset) m buffer count r
      → ReadInto m buffer count offset (finish_read count r)
  finish_read-ReadInto count offset m buffer r few (w', m', e, z, copied) =
      (w', m', rw e (ap (λ status. returned status w' false m') (ground arith)), z, copied)

  -- On a drive that conforms to the commands with 48-bit addresses, is that of its controller which the type of the
  -- device says, and is not busy, ata_read() of at most
  -- 65536 sectors returns the number of sectors. The buffer then holds the bytes that the disk has from sector
  -- `offset` on, the rest of the memory is as it was, the lock is free, and the drive is not busy. Polling
  -- the drive as often as it can say that it is busy, and once more, is enough.
  pub ata_read-ReadInto :
      (fuel : ℕ) (w : W) (m : Mem) (buffer count offset : ℕ)
      → c.unit ≡ dev.type % 2
      → slow < fuel
      → c.polls w ≡ 0
      → count ≤ 65536
      → offset < 2 ^ 32
      → ReadInto m buffer count offset (ata_read ports fuel dev false w m buffer count offset)
  unfolding ata_read
  ata_read-ReadInto fuel w m buffer zero offset mine enough z few small =
      (w, m, refl, z, Copied-nothing disk m (512 * offset) buffer)
  ata_read-ReadInto fuel w m buffer (suc count) offset mine enough z few small =
      rw (ata_read_start ports fuel dev w m buffer count offset) (
        finish_read-ReadInto (suc count) offset m buffer _ few (
          read_sectors-Transferred (suc count) fuel offset
            (outs ports w (address_writes dev (suc count) offset)) m buffer enough
            (address_writes-latched dev c (suc count) offset w z).1
            (address_writes-Addressed dev c (suc count) offset w z mine)
            (address_writes-lba dev c (suc count) offset w z small)
            (address_writes-sectors dev c (suc count) offset w z (omega arith) few) (omega arith)))

-- What fops.read() gives through ata_read(), from the world `w`.
abbrev pub read_through : {W : Type 0} → Ports W → (fuel : ℕ) → AtaDev → W → (old : Mem) → Read
read_through ports fuel dev w old sectors lba =
    answer old (ata_read ports fuel dev false w old 0 sectors lba)

-- The reads of such a drive are those that ext2_mount() and gendisk_partscan() rely on.
pub ata_read-Reads :
    {W : Type 0} (ports : Ports W) (dev : AtaDev) (disk : Mem) (slow fuel : ℕ)
    (c : Conforms ports dev.base_io disk slow) (w : W) (old : Mem)
    → c.unit ≡ dev.type % 2
    → slow < fuel
    → c.polls w ≡ 0
    → Reads (read_through ports fuel dev w old) disk
ata_read-Reads {W = W} ports dev disk slow fuel c w old mine enough z = record {
  returns = λ sectors n few.
      status sectors (u32 n) _
        (ata_read-ReadInto dev c fuel w old 0 sectors (u32 n) mine enough z few (omega arith));
  gives = λ sectors n a few lt.
      byte sectors (u32 n) a lt _
        (ata_read-ReadInto dev c fuel w old 0 sectors (u32 n) mine enough z few (omega arith));
}
  where
    status :
        (sectors lba : ℕ) (r : Outcome W)
        → ReadInto dev c old 0 sectors lba r
        → (answer old r).0 ≡ pos sectors
    status sectors lba r (w', m', e, z', copied) = rw e refl

    byte :
        (sectors lba a : ℕ)
        → a < sectors * 512
        → (r : Outcome W) → ReadInto dev c old 0 sectors lba r
        → (answer old r).1 a ≡ disk (lba * 512 + a)
    byte sectors lba a lt r (w', m', e, z', copied) = rw e (
        ap m' {x = a} {y = 0 + a} (omega arith)
        ∙ copied.0 a (omega arith)
        ∙ ap disk {x = 512 * lba + a} (omega arith))

module _ {W : Type 0} (ports : Ports W) (base : ℕ)
    (never : (w : W) → has_bit (ports.inb w (base + ata_status)).0 3 ≡ false) where
  wait_drq-none : (fuel : ℕ) (w : W) → wait_drq ports fuel w base ≡ none
  unfolding wait_drq
  wait_drq-none zero w = refl
  wait_drq-none (suc fuel) w =
      rw (never w, wait_drq) (wait_drq-none fuel (ports.inb w (base + ata_status)).1)

  read_loop-none :
      (count fuel : ℕ) (w : W) (m : Mem) (buffer : ℕ)
      → read_loop ports (suc count) fuel w m base buffer ≡ none
  unfolding read_loop
  read_loop-none count fuel w m buffer = go (wait_bsy ports fuel w base) refl
    where
      go :
          (r : Option W)
          → wait_bsy ports fuel w base ≡ r
          → read_loop ports (suc count) fuel w m base buffer ≡ none
      go none e = rw (e, read_loop) refl
      go (some w1) e = rw (e, wait_drq-none fuel w1, read_loop) refl

  read_sectors-none :
      (count fuel : ℕ) (w : W) (m : Mem) (buffer : ℕ)
      → read_sectors ports (suc count) fuel w m base buffer ≡ none
  unfolding read_sectors
  read_sectors-none count fuel w m buffer = go (wait_bsy ports fuel w base) refl
    where
      go :
          (r : Option W)
          → wait_bsy ports fuel w base ≡ r
          → read_sectors ports (suc count) fuel w m base buffer ≡ none
      go none e = rw (e, read_sectors) refl
      go (some w1) e =
          rw (e, read_sectors)
            (read_loop-none count fuel (ports.outb w1 (base + ata_status) cmd_read_ext) m buffer)

-- A drive whose status never says DRQ keeps the controller locked for ever, however often it is polled:
-- ata_read() of any sectors does not return, also when the status reports an error.
ata_read_hangs :
    {W : Type 0} (ports : Ports W) (fuel : ℕ) (dev : AtaDev) (w : W) (m : Mem)
    (buffer count offset : ℕ)
    → ((w : W) → has_bit (ports.inb w (dev.base_io + ata_status)).0 3 ≡ false)
    → 0 < count
    → ata_read ports fuel dev false w m buffer count offset ≡ hung
ata_read_hangs {W = W} ports fuel dev w m buffer count offset never one = starts count one
  where
    no_drq : (fuel : ℕ) (w : W) → wait_drq ports fuel w dev.base_io ≡ none
    no_drq fuel w = wait_drq-none ports dev.base_io never fuel w

    starts : (count : ℕ) → 0 < count → ata_read ports fuel dev false w m buffer count offset ≡ hung
    starts zero one = absurd (omega arith)
    starts (suc count) one =
        ata_read_start ports fuel dev w m buffer count offset
        ∙ ap (finish_read (suc count))
            (read_sectors-none ports dev.base_io never count fuel _ m buffer)
