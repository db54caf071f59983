-- ===== src/Gdt/Segments.antt =====
-- arch/i686/gdt.c: the segments that the processor reads from the table.
use ulmix_i.Base.{
  ℕ, ◌+◌, ◌-◌, ◌*◌, ◌/◌, ◌%◌, ◌^◌, ◌<◌, ◌≡◌, refl, ap, Bool, true, false, Option, none, some, List,
  arith, ◌==◌, if◌then◌else◌, length, get_elem?, get_elem?-set_self,
}
use ulmix_i.Base.Bits.{has_bit}
use ulmix_i.Gdt.{GdtEntry, mk_entry, setup_entry, setup_gdt}

-- A descriptor as the processor reads it: `last` is the last offset in the segment, counted in pages of 4096
-- bytes with the granularity bit.
pub record Segment : Type 0 where
  pub base : ℕ
  pub last : ℕ
  pub present : Bool
  pub level : ℕ
  pub is_system : Bool
  pub kind : ℕ

abbrev pub decode : GdtEntry → Segment
decode e = record {
  base = e.base_low + 2 ^ 16 * e.base_middle + 2 ^ 24 * e.base_high;
  last =
      (let limit = e.limit + 2 ^ 16 * (e.flags % 2 ^ 4) in
        if has_bit e.flags 7 then limit * 4096 + 4095 else limit);
  present = has_bit e.access 7;
  level = e.access / 2 ^ 5 % 4;
  is_system = (e.access / 2 ^ 4 % 2 == 0);
  kind = e.access % 2 ^ 4;
}

abbrev pub decode_at : List GdtEntry → (id : ℕ) → Option Segment
decode_at gdt id = elim (get_elem? gdt id) [ none ↦ none | some e ↦ some (decode e) ]

-- The fields of a descriptor hold the base and the limit.
decode-mk_entry :
    (base limit access flags : ℕ)
    → base < 2 ^ 32
    → limit < 2 ^ 20
    → access < 2 ^ 8
    → decode (mk_entry base limit access flags) ≡ record {
      base = base;
      last = (if has_bit flags 7 then limit * 4096 + 4095 else limit);
      present = has_bit access 7;
      level = access / 2 ^ 5 % 4;
      is_system = (access / 2 ^ 4 % 2 == 0);
      kind = access % 2 ^ 4;
    }
unfolding mk_entry
decode-mk_entry base limit access flags b l a = λ k. record {
  base = base_eq k;
  last = last_eq k;
  present = ap (λ x. has_bit x 7) same k;
  level = ap (λ x. x / 2 ^ 5 % 4) same k;
  is_system = ap (λ x. x / 2 ^ 4 % 2 == 0) same k;
  kind = ap (λ x. x % 2 ^ 4) same k;
}
  where
    same : access % 2 ^ 8 ≡ access
    same = omega arith

    base_eq :
        base % 2 ^ 16 + 2 ^ 16 * (base / 2 ^ 16 % 2 ^ 8) + 2 ^ 24 * (base / 2 ^ 24 % 2 ^ 8) ≡ base
    base_eq = omega arith

    limit_eq :
        limit % 2 ^ 16 + 2 ^ 16 * ((limit / 2 ^ 16 % 2 ^ 4 + flags / 2 ^ 4 % 2 ^ 4 * 2 ^ 4) % 2 ^ 4)
        ≡ limit
    limit_eq = omega arith

    bit_eq : has_bit (limit / 2 ^ 16 % 2 ^ 4 + flags / 2 ^ 4 % 2 ^ 4 * 2 ^ 4) 7 ≡ has_bit flags 7
    bit_eq = ap (λ x. x == 1) (bits (limit / 2 ^ 16 % 2 ^ 4) (omega arith))
      where
        bits :
            (r : ℕ) → r < 16 → (r + flags / 2 ^ 4 % 2 ^ 4 * 2 ^ 4) / 2 ^ 7 % 2 ≡ flags / 2 ^ 7 % 2
        bits r lt = omega arith

    last_eq :
        (let limit' =
            limit % 2 ^ 16
            + 2 ^ 16 * ((limit / 2 ^ 16 % 2 ^ 4 + flags / 2 ^ 4 % 2 ^ 4 * 2 ^ 4) % 2 ^ 4) in
          if has_bit (limit / 2 ^ 16 % 2 ^ 4 + flags / 2 ^ 4 % 2 ^ 4 * 2 ^ 4) 7
          then limit' * 4096 + 4095
          else limit')
        ≡ (if has_bit flags 7 then limit * 4096 + 4095 else limit)
    last_eq = λ k. if bit_eq k then limit_eq k * 4096 + 4095 else limit_eq k

-- setup_entry() and the processor agree: a descriptor in the table is read back with the base, the limit, in
-- bytes or in pages, and the access rights that it was set up with.
pub setup_entry-decode :
    (id base limit access flags : ℕ) (gdt : List GdtEntry)
    → id < length gdt
    → base < 2 ^ 32
    → limit < 2 ^ 20
    → access < 2 ^ 8
    → decode_at (setup_entry id base limit access flags gdt) id
      ≡ some (record {
        base = base;
        last = (if has_bit flags 7 then limit * 4096 + 4095 else limit);
        present = has_bit access 7;
        level = access / 2 ^ 5 % 4;
        is_system = (access / 2 ^ 4 % 2 == 0);
        kind = access % 2 ^ 4;
      })
unfolding setup_entry
setup_entry-decode id base limit access flags gdt within b l a =
    rw (get_elem?-set_self gdt id (mk_entry base limit access flags) within, setup_entry, decode_at)
      (ap some (decode-mk_entry base limit access flags b l a))

-- The four segments of setup_gdt() are flat: each begins at 0 and ends with the last byte of 4 GB, two of
-- them for the kernel and two for programs; descriptor 5 is the task state segment, where it stands.
setup_gdt_flat :
    (tss : ℕ)
    → tss < 2 ^ 32
    → (decode_at (setup_gdt tss).0 1
        ≡ some (record {
          base = 0;
          last = 2 ^ 32 - 1;
          present = true;
          level = 0;
          is_system = false;
          kind = 0xa;
        }))
      × (decode_at (setup_gdt tss).0 2
          ≡ some (record {
            base = 0;
            last = 2 ^ 32 - 1;
            present = true;
            level = 0;
            is_system = false;
            kind = 2;
          }))
      × (decode_at (setup_gdt tss).0 3
          ≡ some (record {
            base = 0;
            last = 2 ^ 32 - 1;
            present = true;
            level = 3;
            is_system = false;
            kind = 0xa;
          }))
      × (decode_at (setup_gdt tss).0 4
          ≡ some (record {
            base = 0;
            last = 2 ^ 32 - 1;
            present = true;
            level = 3;
            is_system = false;
            kind = 2;
          }))
      × (decode_at (setup_gdt tss).0 5
          ≡ some (record {
            base = tss;
            last = 104;
            present = true;
            level = 3;
            is_system = true;
            kind = 9;
          }))
unfolding setup_gdt setup_entry mk_entry
setup_gdt_flat tss small = (
  refl,
  refl,
  refl,
  refl,
  ap some (decode-mk_entry tss 104 0xe9 0 small (omega arith) (omega arith)),
)
