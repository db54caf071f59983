-- ===== src/Ata/Simulated.antt =====
-- drivers/ata.c: a drive at the primary command block, for the tests. It says BSY twice in a row, and identifies
-- itself with its first sector.
use ulmix_i.Base.{
  ℕ, zero, suc, ◌+◌, ◌-◌, ◌*◌, ◌%◌, ◌≤◌, ◌<◌, ◌≡◌, refl, false, arith, ltb, ◌==◌, if◌then◌else◌,
}
use ulmix_i.Base.Bits.{has_bit}
use ulmix_i.Base.Memory.{Mem}
use ulmix_i.Ata.{Ports}
use ulmix_i.Ata.Drive.{Drive, latched, started, Conforms}

abbrev pub World : Type 0
World = Drive × ℕ

abbrev pub status : Drive → ℕ → ℕ
status d zero = if ltb 0 d.left then 0x48 else 0x40
status d (suc p) = 0x80

abbrev pub polled : ℕ → ℕ
polled zero = zero
polled (suc p) = p

abbrev pub give : Mem → Drive → (left : ℕ) → World → ℕ × World
give disk d zero w = (0, w)
give disk d (suc n) w = (
  disk (2 * d.next) + 256 * disk (2 * d.next + 1),
  (
    record d { next = d.next + 1; left = n },
    (if n % 256 == 0 then (if n == 0 then 0 else 2) else 0),
  ),
)

abbrev pub primary : Mem → Ports World
primary disk = record {
  inb = λ w port. if port == 0x1f7 then (status w.0 w.1, (w.0, polled w.1)) else (0, w);
  outb = λ w port value.
      if port == 0x1f7
      then (if value == 0x24
          then (started w.0, 2)
          else if value == 0xec
          then (record w.0 { next = 0; left = 256 }, w.1)
          else w)
      else (latched (port - 0x1f0) value w.0, w.1);
  insw = λ w port. give disk w.0 w.0.left w;
}

pub register_lem :
    (disk : Mem) (w : World) (r v : ℕ)
    → w.1 ≡ 0
    → 2 ≤ r
    → r ≤ 6
    → (((primary disk).outb w (0x1f0 + r) v).0 ≡ latched r v w.0)
      × (((primary disk).outb w (0x1f0 + r) v).1 ≡ 0)
register_lem disk w r v z lo hi = rw (other, back) (refl, z)
  where
    other : (0x1f0 + r == 0x1f7) ≡ false
    other = ground arith

    back : 0x1f0 + r - 0x1f0 ≡ r
    back = omega arith

pub ready_lem :
    (disk : Mem) (w : World)
    → w.1 ≡ 0
    → (has_bit ((primary disk).inb w 0x1f7).0 7 ≡ false)
      × (has_bit ((primary disk).inb w 0x1f7).0 3 ≡ ltb 0 w.0.left)
      × (((primary disk).inb w 0x1f7).1.0 ≡ w.0)
      × (((primary disk).inb w 0x1f7).1.1 ≡ 0)
ready_lem disk w z = rw z (ground arith, ground arith, refl, refl)

unfoldable pub primary-Conforms :
    (disk : Mem) → ((a : ℕ) → disk a < 256) → Conforms (primary disk) 0x1f0 disk 2
primary-Conforms disk small = record {
  drive = λ w. w.0;
  polls = λ w. w.1;
  unit = 0;
  byte = small;
  register = λ w r v z lo hi. register_lem disk w r v z lo hi;
  command = λ w z mine. (refl, omega arith);
  busy = λ w n e. rw e (refl, refl, refl);
  ready = λ w z. ready_lem disk w z;
  word = λ w n z e. rw e (refl, refl, omega arith);
}

abbrev pub idle : World
idle = (
  record {
    count_old = 0;
    count = 0;
    lo_old = 0;
    lo = 0;
    mid_old = 0;
    mid = 0;
    hi_old = 0;
    hi = 0;
    device = 0;
    next = 0;
    left = 0;
  },
  0,
)
