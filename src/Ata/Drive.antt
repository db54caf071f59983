-- ===== src/Ata/Drive.antt =====
-- drivers/ata.c: what the driver relies on in a drive, for its reads with 48-bit addresses.
use mathlib.Core.Path.{subst, sym}
use ulmix_i.Base.{
  ℕ, suc, ◌+◌, ◌*◌, ◌/◌, ◌%◌, ◌^◌, ◌<◌, ◌≤◌, ◌≡◌, ◌∙◌, refl, ap, true, false, List, [], ◌∷◌, arith,
  ltb, ◌==◌, if◌then◌else◌,
}
use ulmix_i.Base.Bits.{has_bit}
use ulmix_i.Base.Memory.{Mem}
use ulmix_i.Ata.{Ports, AtaDev, outs, address_writes, ata_data, ata_status, cmd_read_ext}

-- The registers keep what was written last and what was written before that. A transfer goes on with the
-- word `next` of the disk, for `left` words.
pub record Drive : Type 0 where
  pub count_old : ℕ
  pub count : ℕ
  pub lo_old : ℕ
  pub lo : ℕ
  pub mid_old : ℕ
  pub mid : ℕ
  pub hi_old : ℕ
  pub hi : ℕ
  pub device : ℕ
  pub next : ℕ
  pub left : ℕ

-- A write of `v` to register `r`, of those from 2 to 6.
abbrev pub latched : (r v : ℕ) → Drive → Drive
latched r v d =
    if r == 2
    then record d { count_old = d.count; count = v }
    else if r == 3
    then record d { lo_old = d.lo; lo = v }
    else if r == 4
    then record d { mid_old = d.mid; mid = v }
    else if r == 5
    then record d { hi_old = d.hi; hi = v }
    else record d { device = v }

abbrev pub lba : Drive → ℕ
lba d =
    d.lo
    + 2 ^ 8 * d.mid
    + 2 ^ 16 * d.hi
    + 2 ^ 24 * d.lo_old
    + 2 ^ 32 * d.mid_old
    + 2 ^ 40 * d.hi_old

-- A count of 0 stands for 65536.
abbrev pub sectors : Drive → ℕ
sectors d = let n = d.count + 2 ^ 8 * d.count_old in if n == 0 then 65536 else n

-- The device register asks the drive `unit` of the two for an LBA.
abbrev pub Addressed : Drive → (unit : ℕ) → Type 0
Addressed d unit = (has_bit d.device 6 ≡ true) × (d.device / 2 ^ 4 % 2 ≡ unit)

abbrev pub started : Drive → Drive
started d = record d { next = 256 * lba d; left = 256 * sectors d }

-- The drive at `base` that holds `disk`, the first or the second of two: a command is for that which the device
-- register asks. `polls w` is how often its status still says BSY, at most `slow`
-- times in a row: behind a command, and between two sectors.
pub record Conforms {W : Type 0} (ports : Ports W) (base : ℕ) (disk : Mem) (slow : ℕ) : Type 0 where
  pub drive : W → Drive
  pub polls : W → ℕ
  pub unit : ℕ
  pub byte : (a : ℕ) → disk a < 256
  pub register :
      (w : W) (r v : ℕ)
      → polls w ≡ 0
      → 2 ≤ r
      → r ≤ 6
      → (drive (ports.outb w (base + r) v) ≡ latched r v (drive w))
        × (polls (ports.outb w (base + r) v) ≡ 0)
  pub command :
      (w : W)
      → polls w ≡ 0
      → Addressed (drive w) unit
      → (drive (ports.outb w (base + ata_status) cmd_read_ext) ≡ started (drive w))
        × (polls (ports.outb w (base + ata_status) cmd_read_ext) ≤ slow)
  pub busy :
      (w : W) (n : ℕ)
      → polls w ≡ suc n
      → (has_bit (ports.inb w (base + ata_status)).0 7 ≡ true)
        × (drive (ports.inb w (base + ata_status)).1 ≡ drive w)
        × (polls (ports.inb w (base + ata_status)).1 ≡ n)
  pub ready :
      (w : W)
      → polls w ≡ 0
      → (has_bit (ports.inb w (base + ata_status)).0 7 ≡ false)
        × (has_bit (ports.inb w (base + ata_status)).0 3 ≡ ltb 0 (drive w).left)
        × (drive (ports.inb w (base + ata_status)).1 ≡ drive w)
        × (polls (ports.inb w (base + ata_status)).1 ≡ 0)
  pub word :
      (w : W) (n : ℕ)
      → polls w ≡ 0
      → (drive w).left ≡ suc n
      → ((ports.insw w (base + ata_data)).0
          ≡ disk (2 * (drive w).next) + 256 * disk (2 * (drive w).next + 1))
        × (drive (ports.insw w (base + ata_data)).1
            ≡ record (drive w) { next = (drive w).next + 1; left = n })
        × (polls (ports.insw w (base + ata_data)).1
            ≤ (if n % 256 == 0 then (if n == 0 then 0 else slow) else 0))

-- The writes `rs` to registers of the command block.
abbrev at : (base : ℕ) → List (ℕ × ℕ) → List (ℕ × ℕ)
at base [] = []
at base ((r, v) ∷ rs) = (base + r, v) ∷ at base rs

abbrev InBlock : List (ℕ × ℕ) → Type 0
InBlock [] = Unit {0}
InBlock ((r, v) ∷ rs) = (2 ≤ r) × (r ≤ 6) × InBlock rs

abbrev latched_all : List (ℕ × ℕ) → Drive → Drive
latched_all [] d = d
latched_all ((r, v) ∷ rs) d = latched_all rs (latched r v d)

module _ {W : Type 0} {ports : Ports W} {base : ℕ} {disk : Mem} {slow : ℕ}
    (c : Conforms ports base disk slow) where
  outs-latched_all :
      (rs : List (ℕ × ℕ)) (w : W)
      → InBlock rs
      → c.polls w ≡ 0
      → (c.drive (outs ports w (at base rs)) ≡ latched_all rs (c.drive w))
        × (c.polls (outs ports w (at base rs)) ≡ 0)
  unfolding outs
  outs-latched_all [] w h z = (refl, z)
  outs-latched_all ((r, v) ∷ rs) w (lo, hi, h) z =
      let (e, z') = c.register w r v z lo hi in
      let (e', z'') = outs-latched_all rs (ports.outb w (base + r) v) h z' in
      (e' ∙ ap (latched_all rs) e, z'')

module _ {W : Type 0} {ports : Ports W} (dev : AtaDev) {disk : Mem} {slow : ℕ}
    (c : Conforms ports dev.base_io disk slow) (count offset : ℕ) (w : W) (z : c.polls w ≡ 0) where
  abbrev register_writes : List (ℕ × ℕ)
  register_writes =
      (6, (if dev.type % 2 == 0 then 0x40 else 0x50))
      ∷ (2, count / 2 ^ 8 % 2 ^ 8)
      ∷ (3, offset / 2 ^ 24 % 2 ^ 8)
      ∷ (4, 0)
      ∷ (5, 0)
      ∷ (2, count % 2 ^ 8)
      ∷ (3, offset % 2 ^ 8)
      ∷ (4, offset / 2 ^ 8 % 2 ^ 8)
      ∷ (5, offset / 2 ^ 16 % 2 ^ 8)
      ∷ []

  in_block : InBlock register_writes
  in_block = (
    omega arith,
    omega arith,
    (
      omega arith,
      omega arith,
      (
        omega arith,
        omega arith,
        (
          omega arith,
          omega arith,
          (
            omega arith,
            omega arith,
            (
              omega arith,
              omega arith,
              (
                omega arith,
                omega arith,
                (omega arith, omega arith, (omega arith, omega arith, tt)),
              ),
            ),
          ),
        ),
      ),
    ),
  )

  -- The registers behind address_writes(), and a drive that is not busy.
  pub address_writes-latched :
      (c.drive (outs ports w (address_writes dev count offset)) ≡ record (c.drive w) {
        count_old = count / 2 ^ 8 % 2 ^ 8;
        count = count % 2 ^ 8;
        lo_old = offset / 2 ^ 24 % 2 ^ 8;
        lo = offset % 2 ^ 8;
        mid_old = 0;
        mid = offset / 2 ^ 8 % 2 ^ 8;
        hi_old = 0;
        hi = offset / 2 ^ 16 % 2 ^ 8;
        device = (if dev.type % 2 == 0 then 0x40 else 0x50);
      })
      × (c.polls (outs ports w (address_writes dev count offset)) ≡ 0)
  unfolding address_writes
  address_writes-latched = outs-latched_all c register_writes w in_block z

  pub address_writes-lba :
      offset < 2 ^ 32 → lba (c.drive (outs ports w (address_writes dev count offset))) ≡ offset
  address_writes-lba small = ap lba address_writes-latched.0 ∙ omega (arith, small)

  pub address_writes-sectors :
      0 < count
      → count ≤ 65536
      → sectors (c.drive (outs ports w (address_writes dev count offset))) ≡ count
  address_writes-sectors one_sector few = ap sectors address_writes-latched.0 ∙ ground arith

  pub address_writes-Addressed :
      c.unit ≡ dev.type % 2
      → Addressed (c.drive (outs ports w (address_writes dev count offset))) c.unit
  address_writes-Addressed mine =
      subst (λ d. Addressed d c.unit) (sym address_writes-latched.0)
        (asked (dev.type % 2) mine (omega arith))
    where
      asked :
          (t : ℕ)
          → c.unit ≡ t
          → t < 2
          → (has_bit (if t == 0 then 0x40 else 0x50) 6 ≡ true)
            × ((if t == 0 then 0x40 else 0x50) / 2 ^ 4 % 2 ≡ c.unit)
      asked t e lt = (ground arith, ground arith)
