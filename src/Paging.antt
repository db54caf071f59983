-- ===== src/Paging.antt =====
-- arch/i686/mmhelper.c and paging.c with paging.h: the page tables of an address space, mappings, and
-- the translation of a virtual address.
pub mod Mapping
pub mod Translate
pub mod Setup
mod Tests
use Prim.Native.Nat.{bit_or}
use ulmix_i.Base.{
  ℕ, zero, suc, ◌+◌, ◌-◌, ◌*◌, ◌/◌, ◌%◌, ◌^◌, Bool, true, false, not, ◌||◌, ◌&&◌, Option, none,
  some, ltb, ◌==◌, if◌then◌else◌,
}
use ulmix_i.Base.Bits.{u32}

abbrev pub page_size : ℕ
page_size = 4096

abbrev pub pg_present : ℕ
pg_present = 1

abbrev pub pg_rdwr : ℕ
pg_rdwr = 2

abbrev pub pg_user : ℕ
pg_user = 4

-- A page table at an address, with its entries of 64 bits.
pub record Table : Type 0 where
  pub addr : ℕ
  pub entry : ℕ → ℕ

-- The length of `page_tables` and of a page directory.
abbrev pub table_count : ℕ
table_count = 512

-- struct mm_tables_struct: `page_tables`, where NULL is `none`, and the entries of `page_dirs[0]`, both up to
-- `table_count`. An access behind them sets `overrun`, and nothing is known of the tables then. `fresh` is what
-- kmalloc() will return for the table of each page directory entry.
pub record Tables : Type 0 where
  pub overrun : Bool
  pub page_tables : ℕ → Option Table
  pub page_dir : ℕ → ℕ
  pub fresh : ℕ → ℕ

abbrev pub update {ℓ} : {A : Type ℓ} → (ℕ → A) → ℕ → A → ℕ → A
update f i a j = if i == j then a else f j

-- `x & 0xfffff000` in 32 bits.
abbrev pub page_of : ℕ → ℕ
page_of x = u32 (x / page_size * page_size)

-- What a translation reads: an entry of a table, or memory that is no entry of a table.
pub data Physical : Type 0 where
  at : ℕ → Physical
  outside : Physical

-- mm_physical(), in the address space `current_mm`, NULL before paging is on. A table has 512 entries.
pub mm_physical : Option Tables → ℕ → Physical
mm_physical none addr = at addr
mm_physical (some mm) addr = elim (mm.page_tables (addr / 2 ^ 22)) [
  | none ↦ outside
  | some ptable ↦
      if ltb (addr % 2 ^ 22 / 2 ^ 12) 512 && ltb (addr / 2 ^ 22) table_count
      then at (page_of (u32 (ptable.entry (addr % 2 ^ 22 / 2 ^ 12))) + addr % page_size)
      else outside
]

-- The directory entry for a table at physical address `p`.
abbrev pub dir_entry : ℕ → ℕ
dir_entry p = bit_or p (pg_present + pg_user + pg_rdwr)

-- get_pt_entry() before paging is on, where mm_physical() is the identity, for an offset below `table_count`: the
-- address space in which the table of `pd_offset` is present.
pub get_pt_entry : Tables → (pd_offset : ℕ) → Tables × Table
get_pt_entry mm pd_offset = elim (mm.page_tables pd_offset) [
  | some ptable ↦ (mm, ptable)
  | none ↦ (
    record mm {
      page_tables =
          update mm.page_tables pd_offset
            (some (record { addr = mm.fresh pd_offset; entry = λ _. 0 }));
      page_dir = update mm.page_dir pd_offset (dir_entry (mm.fresh pd_offset));
    },
    record { addr = mm.fresh pd_offset; entry = λ _. 0 },
  )
]

-- `*pt_entry = phys_addr | PG_PRESENT | crflags`
pub set_entry : Tables → (pd_offset pt_offset phys_addr crflags : ℕ) → Tables
unfolding get_pt_entry
set_entry mm pd_offset pt_offset phys_addr crflags =
    let (mm', ptable) = get_pt_entry mm pd_offset in
    if ltb pd_offset table_count
    then record mm' {
      page_tables = update mm'.page_tables pd_offset (
          some (record ptable {
            entry = update ptable.entry pt_offset (bit_or phys_addr (bit_or pg_present crflags));
          }));
    }
    else record mm { overrun = true }

-- The loop of map_pages(), `pages` rounds.
pub map_loop : (pages : ℕ) → Tables → (pd_offset pt_offset phys_addr crflags : ℕ) → Tables
map_loop zero mm pd_offset pt_offset phys_addr crflags = mm
map_loop (suc pages) mm pd_offset pt_offset phys_addr crflags =
    map_loop pages (set_entry mm pd_offset pt_offset phys_addr crflags)
      (if pt_offset + 1 == 512 then pd_offset + 1 else pd_offset)
      (if pt_offset + 1 == 512 then 0 else pt_offset + 1) (u32 (phys_addr + page_size)) crflags

pub map_pages : Tables → (start_page pages start_addr crflags : ℕ) → Tables
map_pages mm start_page pages start_addr crflags =
    map_loop pages mm (start_page / 512) (start_page % 512) (page_of start_addr) crflags

pub mm_map : Tables → (start_virt start_phys n crflags : ℕ) → Tables
unfolding map_pages
mm_map mm start_virt start_phys n crflags =
    if not (start_virt % page_size == 0) || not (start_phys % page_size == 0)
    then mm
    else if ltb n 1
    then mm
    else map_pages mm (start_virt / page_size)
        (n / page_size + (if n % page_size == 0 then 0 else 1)) start_phys crflags
