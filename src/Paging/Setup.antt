-- ===== src/Paging/Setup.antt =====
-- arch/i686/paging.c: the first address space, and turning paging on. kmalloc() is taken to succeed;
-- the addresses it gives and what its memory holds are parameters.
use Prim.Native.Nat.{bit_or}
use mathlib.Core.Path.{subst}
use ulmix_i.Base.{
  ℕ, ◌/◌, ◌%◌, ◌+◌, ◌≤◌, ◌&&◌, ltb, leb, ◌-◌, ◌*◌, ◌^◌, ◌<◌, ◌≡◌, ◌≢◌, refl, sym, ap, ◌∙◌, inl, inr,
  Bool, Bool-cases, true, false, Option, none, some, ◌==◌, arith, if◌then◌else◌, List, [],
}
use ulmix_i.Base.Bits.{bit_or-eq-add}
use ulmix_i.Frames.{setup_pfalloc_bytes}
use ulmix_i.Mmap.{Region}
use ulmix_i.Paging.{
  Table, Tables, update, Physical, at, outside, mm_physical, mm_map, page_size, pg_present, pg_rdwr,
}
use ulmix_i.Paging.Mapping.{
  pages_of, Joined, Linked, entry_in, entry_of, mapped, flagged, mm_map-entry_of,
}
use ulmix_i.Sysinfo.{Sysinfo, cpu_supports, cpu_pae}

-- What kmalloc() gives: the page directory, the table of pointers, what the memory of `page_tables`
-- holds, and the page tables to come.
pub record Memory : Type 0 where
  pub page_dir0 : ℕ
  pub ptr_table : ℕ
  pub held : ℕ → Option Table
  pub fresh : ℕ → ℕ

-- struct mm_struct, with the address of `page_dirs[0]`, and the address and the entries of `ptr_table`.
pub record MmStruct : Type 0 where
  pub tables : Tables
  pub page_dir0 : ℕ
  pub ptr_table : ℕ
  pub ptr_entry : ℕ → ℕ
  pub user_regions : List Region

-- The page directory and the table of pointers are cleared, `page_tables` is not.
pub mk_mmap : Memory → MmStruct
mk_mmap k = record {
  tables = record { overrun = false; page_tables = k.held; page_dir = λ _. 0; fresh = k.fresh };
  page_dir0 = k.page_dir0;
  ptr_table = k.ptr_table;
  ptr_entry = update (λ _. 0) 0 (bit_or k.page_dir0 pg_present);
  user_regions = [];
}

-- The control registers CR0 and CR4.
pub paging_enable : (pae_support smep_support : Bool) → (cr0 cr4 : ℕ) → ℕ × ℕ
paging_enable pae_support smep_support cr0 cr4 =
    let with_pae = if pae_support then bit_or cr4 (2 ^ 5) else cr4 in
    (
      bit_or (bit_or cr0 (2 ^ 16)) (2 ^ 31),
      if smep_support then bit_or with_pae (2 ^ 20) else with_pae,
    )

-- What setup_paging() leaves; `pframes_bytes` is the size of the memory of setup_pfalloc().
pub record Paged : Type 0 where
  pub current_mm : MmStruct
  pub cr0 : ℕ
  pub cr3 : Physical
  pub cr4 : ℕ
  pub pframes_bytes : ℕ

-- apply_mmap(), called when `current_mm` is still NULL.
pub apply_mmap : MmStruct → MmStruct × Physical
unfolding mm_physical
apply_mmap mmap = (mmap, mm_physical none mmap.ptr_table)

-- What follows the test for PAE.
pub map_kernel : Memory → (bss_end ram_size cr0 cr4 : ℕ) → Paged
unfolding mk_mmap mm_map apply_mmap paging_enable
map_kernel k bss_end ram_size cr0 cr4 =
    let mm = mk_mmap k in
    let mm_default = record mm { tables = mm_map mm.tables 0 0 bss_end pg_rdwr } in
    record {
      current_mm = (apply_mmap mm_default).0;
      cr0 = (paging_enable true false cr0 cr4).0;
      cr3 = (apply_mmap mm_default).1;
      cr4 = (paging_enable true false cr0 cr4).1;
      pframes_bytes = setup_pfalloc_bytes ram_size;
    }

-- `none` is the panic without PAE.
pub setup_paging :
    (cpuid : Option (ℕ × ℕ))
    → Sysinfo
    → Memory
    → (bss_end ram_size cr0 cr4 : ℕ) → Option Paged × Sysinfo
unfolding map_kernel
setup_paging cpuid s k bss_end ram_size cr0 cr4 =
    let (pae_support, s') = cpu_supports cpuid cpu_pae s in
    (if pae_support == 0 then none else some (map_kernel k bss_end ram_size cr0 cr4), s')

-- The translation of the processor with PAE, from the table of pointers down: bit 0 of an entry says that it is
-- present, bits 12 and up are the address. `outside` where an entry is not present or leads to no table of
-- the address space.
abbrev present : ℕ → Bool
present entry = entry % 2 == 1

abbrev address : ℕ → ℕ
address entry = entry / page_size * page_size

abbrev pub translate_page : (entry addr : ℕ) → Physical
translate_page entry addr = if present entry then at (address entry + addr % page_size) else outside

abbrev pub translate_table : Option Table → (pde addr : ℕ) → Physical
translate_table none pde addr = outside
translate_table (some t) pde addr =
    if present pde && (address pde == t.addr)
    then translate_page (t.entry (addr / page_size % 512)) addr
    else outside

abbrev pub translate : MmStruct → (addr : ℕ) → Physical
translate mm addr =
    let pointer = mm.ptr_entry (addr / 2 ^ 30) in
    if present pointer && (address pointer == mm.page_dir0)
    then translate_table (mm.tables.page_tables (addr / 2 ^ 21 % 512))
        (mm.tables.page_dir (addr / 2 ^ 21 % 512)) addr
    else outside

-- The translation that is in force, of `addr`, and what CR3 holds.
abbrev pub in_force : (addr : ℕ) → Option Paged → Option (Physical × Physical)
in_force addr none = none
in_force addr (some p) = some (translate p.current_mm addr, p.cr3)

decoded :
    (a flags : ℕ)
    → a % page_size ≡ 0
    → flags < page_size
    → flags % 2 ≡ 1
    → (bit_or a flags % 2 ≡ 1) × (address (bit_or a flags) ≡ a)
decoded a flags aligned few odd = rw (sum) (omega arith, omega arith)
  where
    whole : a ≡ a / 4096 * 4096
    whole = omega arith

    sum : bit_or a flags ≡ a / 4096 * 4096 + flags
    sum = ap (λ x. bit_or x flags) whole ∙ bit_or-eq-add 12 (a / 4096) flags few

-- In tables that are linked, the directory leads to the entry.
translate_table-entry_in :
    (t : Option Table) (pde fresh addr : ℕ)
    → Joined t pde fresh
    → translate_table t pde addr ≡ translate_page (entry_in t (addr / page_size % 512)) addr
translate_table-entry_in none pde fresh addr l = refl
translate_table-entry_in (some t) pde fresh addr (e, aligned) =
    let (is_present, leads) = decoded t.addr 7 aligned (omega arith) (omega arith) in
    rw (e) (ground (arith, is_present, leads))

-- What kmalloc() has given: no table is held, and the page directory and the tables begin at a page.
abbrev pub Clean : Memory → Type 0
Clean k =
    ((i : ℕ) → k.held i ≡ none)
    × ((i : ℕ) → k.fresh i % page_size ≡ 0)
    × (k.page_dir0 % page_size ≡ 0)

abbrev pub identity : (bss_end addr : ℕ) → Physical
identity bss_end addr = if ltb addr (pages_of bss_end * page_size) then at addr else outside

translate_page-flagged :
    (addr : ℕ) → translate_page (flagged (addr / page_size * page_size) pg_rdwr) addr ≡ at addr
translate_page-flagged addr =
    let (is_present, leads) =
      decoded (addr / page_size * page_size) 3 (omega arith) (omega arith) refl in
    rw (is_present, leads) (ap at (omega arith))

translate-mapped :
    (n addr : ℕ)
    → translate_page (mapped n 0 0 pg_rdwr (addr / page_size) 0) addr
      ≡ (if ltb addr (n * page_size) then at addr else outside)
translate-mapped n addr =
    ap
      (λ a.
        translate_page
          (if leb 0 (addr / page_size) && ltb (addr / page_size) (0 + n)
            then flagged a pg_rdwr
            else 0)
          addr)
      start
    ∙ ap
        (λ b. translate_page (if b then flagged (addr / page_size * page_size) pg_rdwr else 0) addr)
        same
    ∙ split (ltb addr (n * page_size))
  where
    start : 0 + (addr / page_size - 0) * page_size ≡ addr / page_size * page_size
    start = omega arith

    same : (leb 0 (addr / page_size) && ltb (addr / page_size) (0 + n)) ≡ ltb addr (n * page_size)
    same = ground arith

    split :
        (b : Bool)
        → translate_page (if b then flagged (addr / page_size * page_size) pg_rdwr else 0) addr
          ≡ (if b then at addr else outside)
    split true = translate_page-flagged addr
    split false = refl

-- Below 1 GB, the processor finds what entry_of() says; above, it finds nothing.
translate-entry_of :
    (mm : MmStruct) (addr : ℕ)
    → Linked mm.tables
    → mm.page_dir0 % page_size ≡ 0
    → mm.ptr_entry ≡ update (λ _. 0) 0 (bit_or mm.page_dir0 pg_present)
    → translate mm addr ≡ (
        if ltb addr (2 ^ 30)
        then translate_page (entry_of mm.tables (addr / page_size)) addr
        else outside)
translate-entry_of mm addr l dir e =
    ap (λ f. walk (f (addr / 2 ^ 30))) e ∙ elim (Bool-cases (ltb addr (2 ^ 30))) [
      | inl low ↦ rw low (
          ap walk (first low)
          ∙ ap (λ b. if b then table else outside)
              (pointer (bit_or mm.page_dir0 1) (decoded mm.page_dir0 1 dir (omega arith) refl))
          ∙ translate_table-entry_in (mm.tables.page_tables (addr / 2 ^ 21 % 512)) _ _ addr
              (l (addr / 2 ^ 21 % 512))
          ∙ ap
              (λ i.
                translate_page (entry_in (mm.tables.page_tables i) (addr / page_size % 512)) addr)
              (index low))
      | inr high ↦ rw high (ap walk (later high))
    ]
  where
    table : Physical
    table =
        translate_table (mm.tables.page_tables (addr / 2 ^ 21 % 512))
          (mm.tables.page_dir (addr / 2 ^ 21 % 512)) addr

    walk : ℕ → Physical
    walk pointer = if present pointer && (address pointer == mm.page_dir0) then table else outside

    pointer :
        (p : ℕ)
        → (p % 2 ≡ 1) × (address p ≡ mm.page_dir0)
        → (present p && (address p == mm.page_dir0)) ≡ true
    pointer p (odd, leads) = ground (arith, odd, leads)

    first :
        ltb addr (2 ^ 30) ≡ true
        → update (λ _. 0) 0 (bit_or mm.page_dir0 pg_present) (addr / 2 ^ 30)
          ≡ bit_or mm.page_dir0 pg_present
    first low = ground arith

    later :
        ltb addr (2 ^ 30) ≡ false
        → update (λ _. 0) 0 (bit_or mm.page_dir0 pg_present) (addr / 2 ^ 30) ≡ 0
    later high = ground arith

    index : ltb addr (2 ^ 30) ≡ true → addr / 2 ^ 21 % 512 ≡ addr / page_size / 512
    index low = ground arith

pub translate-map_kernel :
    (k : Memory) (bss_end ram_size cr0 cr4 addr : ℕ)
    → Clean k
    → pages_of bss_end * page_size ≤ 2 ^ 30
    → translate (map_kernel k bss_end ram_size cr0 cr4).current_mm addr ≡ identity bss_end addr
unfolding map_kernel apply_mmap mk_mmap
translate-map_kernel k bss_end ram_size cr0 cr4 addr (clear, fresh, dir) room =
    (translate-entry_of (map_kernel k bss_end ram_size cr0 cr4).current_mm addr
        (filled.1 linked_first) dir refl
      ∙ ap (λ x. if ltb addr (2 ^ 30) then translate_page x addr else outside)
          (filled.0 ∙ ap (λ x. mapped (pages_of bss_end) 0 0 pg_rdwr (addr / page_size) x) empty)
      ∙ ap (λ x. if ltb addr (2 ^ 30) then x else outside)
          (translate-mapped (pages_of bss_end) addr)
      ∙ low)
  where
    first : Tables
    first = (mk_mmap k).tables

    linked_first : Linked first
    linked_first i = subst (λ t. Joined t 0 (k.fresh i)) (sym (clear i)) (fresh i)

    empty : entry_of first (addr / page_size) ≡ 0
    empty = ap (λ t. entry_in t (addr / page_size % 512)) (clear (addr / page_size / 512))

    filled :
        (entry_of (mm_map first 0 0 bss_end pg_rdwr) (addr / page_size)
          ≡ mapped
              (pages_of bss_end)
              0
              0
              pg_rdwr
              (addr / page_size)
              (entry_of first (addr / page_size)))
        × (Linked first → Linked (mm_map first 0 0 bss_end pg_rdwr))
    filled =
        mm_map-entry_of first 0 0 bss_end pg_rdwr (addr / page_size) refl refl (omega (arith, room))
          (omega (arith, room))

    low : (if ltb addr (2 ^ 30) then identity bss_end addr else outside) ≡ identity bss_end addr
    low = ground (arith, room)

map_kernel-identity :
    (k : Memory) (bss_end ram_size cr0 cr4 addr : ℕ)
    → Clean k
    → pages_of bss_end * page_size ≤ 2 ^ 30
    → in_force addr (some (map_kernel k bss_end ram_size cr0 cr4))
      ≡ some (identity bss_end addr, at k.ptr_table)
unfolding map_kernel apply_mmap
map_kernel-identity k bss_end ram_size cr0 cr4 addr clean room =
    ap (λ x. some (x, at k.ptr_table))
      (translate-map_kernel k bss_end ram_size cr0 cr4 addr clean room)

in_force_unless :
    (c : Bool) (addr : ℕ) (p : Paged) {r : Option (Physical × Physical)}
    → in_force addr (some p) ≡ r
    → in_force addr (if c then none else some p) ≡ (if c then none else r)
in_force_unless true addr p e = refl
in_force_unless false addr p e = e

-- setup_paging() panics when cpu_supports() denies PAE. Otherwise CR3 holds the address of the table of pointers,
-- and the processor, from there on down, translates every address in the pages of the kernel to itself and no
-- other address. The memory that kmalloc() gives for the tables must hold no pointer to a table and begin at a
-- page, and the pages of the kernel end at 1 GB or below.
pub setup_paging-identity :
    (cpuid : Option (ℕ × ℕ)) (s : Sysinfo) (k : Memory) (bss_end ram_size cr0 cr4 addr : ℕ)
    → Clean k
    → pages_of bss_end * page_size ≤ 2 ^ 30
    → in_force addr (setup_paging cpuid s k bss_end ram_size cr0 cr4).0 ≡ (
        if (cpu_supports cpuid cpu_pae s).0 == 0
        then none
        else some (identity bss_end addr, at k.ptr_table))
unfolding setup_paging
setup_paging-identity cpuid s k bss_end ram_size cr0 cr4 addr clean room =
    in_force_unless ((cpu_supports cpuid cpu_pae s).0 == 0) addr
      (map_kernel k bss_end ram_size cr0 cr4)
      (map_kernel-identity k bss_end ram_size cr0 cr4 addr clean room)

-- With PAE it goes on to the mapping of the kernel.
pub setup_paging-map_kernel :
    (cpuid : Option (ℕ × ℕ)) (s : Sysinfo) (k : Memory) (bss_end ram_size cr0 cr4 : ℕ)
    → (cpu_supports cpuid cpu_pae s).0 ≢ 0
    → (setup_paging cpuid s k bss_end ram_size cr0 cr4).0
      ≡ some (map_kernel k bss_end ram_size cr0 cr4)
unfolding setup_paging
setup_paging-map_kernel cpuid s k bss_end ram_size cr0 cr4 pae = rw (has_pae, setup_paging) refl
  where
    has_pae : ((cpu_supports cpuid cpu_pae s).0 == 0) ≡ false
    has_pae = ground (arith, pae)
