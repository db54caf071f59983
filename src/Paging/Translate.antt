-- ===== src/Paging/Translate.antt =====
-- arch/i686/mmhelper.c: where mm_physical() agrees with the tables that mm_map() fills.
use Prim.Native.Nat.{bit_or}
use ulmix_i.Base.{
  ℕ, ◌+◌, ◌-◌, ◌*◌, ◌/◌, ◌%◌, ◌^◌, ◌<◌, ◌≤◌, ◌≡◌, ◌∙◌, ap, true, Option, none, some, arith, ltb,
  leb, ◌&&◌, if◌then◌else◌,
}
use ulmix_i.Base.Bits.{u32, bit_or-eq-add}
use ulmix_i.Paging.{
  Tables, Table, page_size, pg_present, page_of, table_count, mm_physical, mm_map, at, outside,
}
use ulmix_i.Paging.Mapping.{entry_in, entry_of, flagged, mapped, pages_of, mm_map-entry_of}

page_of-flagged :
    (q crflags : ℕ)
    → bit_or pg_present crflags < page_size
    → q * page_size < 2 ^ 32
    → page_of (u32 (flagged (q * page_size) crflags)) ≡ q * page_size
page_of-flagged q crflags few small =
    ap (λ t. page_of (u32 t)) (bit_or-eq-add 12 q (bit_or pg_present crflags) few)
    ∙ rounded q (bit_or pg_present crflags) few small
  where
    rounded : (q r : ℕ) → r < 4096 → q * 4096 < 2 ^ 32 → page_of (u32 (q * 4096 + r)) ≡ q * 4096
    rounded q r a b = omega arith

flagged_some :
    (q crflags : ℕ)
    → bit_or pg_present crflags < page_size
    → 0 < bit_or pg_present crflags
    → 0 < flagged (q * page_size) crflags
flagged_some q crflags few pos = omega (arith, bit_or-eq-add 12 q (bit_or pg_present crflags) few)

read_entry :
    (mm : Tables) (addr q crflags : ℕ)
    → addr < 2 ^ 21
    → entry_of mm (addr / page_size) ≡ flagged (q * page_size) crflags
    → bit_or pg_present crflags < page_size
    → 0 < bit_or pg_present crflags
    → q * page_size < 2 ^ 32
    → mm_physical (some mm) addr ≡ at (q * page_size + addr % page_size)
unfolding mm_physical
read_entry mm addr q crflags low e few pos small =
    go (mm.page_tables (addr / 2 ^ 22)) (ap mm.page_tables (omega arith))
  where
    go :
        (t : Option Table)
        → t ≡ mm.page_tables (addr / page_size / 512)
        → (elim t [
          | none ↦ outside
          | some ptable ↦
              if ltb (addr % 2 ^ 22 / 2 ^ 12) 512 && ltb (addr / 2 ^ 22) table_count
              then at (page_of (u32 (ptable.entry (addr % 2 ^ 22 / 2 ^ 12))) + addr % page_size)
              else outside
        ])
          ≡ at (q * page_size + addr % page_size)
    go none et = absurd (
        omega (
          arith,
          flagged_some q crflags few pos,
          ap (λ x. entry_in x (addr / page_size % 512)) et,
          e,
        ))
    go (some t) et =
        let low_index : (ltb (addr % 2 ^ 22 / 2 ^ 12) 512 && ltb (addr / 2 ^ 22) table_count)
            ≡ true =
          ground arith in
        let index : addr % 2 ^ 22 / 2 ^ 12 ≡ addr / page_size % 512 = omega arith in
        rw low_index (
          ap (λ x. at (page_of (u32 x) + addr % page_size))
            (ap t.entry index ∙ ap (λ x. entry_in x (addr / page_size % 512)) et ∙ e)
          ∙ ap (λ x. at (x + addr % page_size)) (page_of-flagged q crflags few small))

-- After mm_map() of a range at page-aligned addresses, mm_physical() in that address space translates
-- every virtual address of the range below 2 MB to the physical address at the same distance from the
-- start. The flags must lie in the low twelve bits, the pages of the virtual range end at 1 GB or below, where
-- the arrays of the tables end, and those of the physical range below 4 GB.
pub mm_physical-mm_map :
    (mm : Tables) (start_virt start_phys n crflags addr : ℕ)
    → start_virt % page_size ≡ 0
    → start_phys % page_size ≡ 0
    → start_virt + pages_of n * page_size ≤ 2 ^ 30
    → start_phys + pages_of n * page_size < 2 ^ 32
    → bit_or pg_present crflags < page_size
    → 0 < bit_or pg_present crflags
    → start_virt ≤ addr
    → addr < start_virt + n
    → addr < 2 ^ 21
    → mm_physical (some (mm_map mm start_virt start_phys n crflags)) addr
      ≡ at (start_phys + (addr - start_virt))
mm_physical-mm_map mm v p n crflags addr av ap' fits room few pos lo hi low =
    read_entry (mm_map mm v p n crflags) addr (p / page_size + (addr / page_size - v / page_size))
      crflags low
      ((mm_map-entry_of mm v p n crflags (addr / page_size) av ap' fits room).0 ∙ inside) few pos
      (omega arith)
    ∙ ap at (omega arith)
  where
    inside :
        mapped
          (pages_of n)
          (v / page_size)
          p
          crflags
          (addr / page_size)
          (entry_of mm (addr / page_size))
        ≡ flagged ((p / page_size + (addr / page_size - v / page_size)) * page_size) crflags
    inside = rw (range, leb_true) (ap (λ x. flagged x crflags) (omega arith))
      where
        range : ltb (addr / page_size) (v / page_size + pages_of n) ≡ true
        range = ground arith

        leb_true : leb (v / page_size) (addr / page_size) ≡ true
        leb_true = ground arith

-- From 2 MB on, mm_physical() does not follow the tables: it takes bits 22 and up for the directory
-- and ten bits for the entry, where the tables of get_pt_entry() have 512 entries. For every address
-- in the second half of a 4 MB range it reads outside the table, whatever is mapped there.
mm_physical-outside :
    (mm : Tables) (addr : ℕ) → 2 ^ 21 ≤ addr % 2 ^ 22 → mm_physical (some mm) addr ≡ outside
unfolding mm_physical
mm_physical-outside mm addr high = ground arith
