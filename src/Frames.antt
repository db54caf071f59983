-- ===== src/Frames.antt =====
-- arch/i686/pfalloc.c: the reference counts of the page frames in physical memory. A count is a
-- uint8_t and wraps; the array has no bound of its own in the code.
pub mod Counts
mod Tests
use ulmix_i.Base.{
  ℕ, zero, suc, ◌+◌, ◌-◌, ◌*◌, ◌/◌, ◌%◌, ◌^◌, Bool, true, false, Option, none, some, ◌==◌,
  if◌then◌else◌,
}
use ulmix_i.Base.Bits.{u8, u32}

abbrev pub page_size : ℕ
page_size = 4096

-- `pframes[i].ref_count` by index.
abbrev pub Pframes : Type 0
Pframes = ℕ → ℕ

abbrev pub update : Pframes → ℕ → ℕ → Pframes
update f i v j = if i == j then v else f j

-- sizeof(struct pf_struct) is 1: the bytes that setup_pfalloc() asks kmalloc() for.
pub setup_pfalloc_bytes : (ram_size : ℕ) → ℕ
setup_pfalloc_bytes ram_size = ram_size / page_size * 1

-- The search of get_free_page(), from `index` on.
pub first_free : (fuel : ℕ) → Pframes → ℕ → Option ℕ
first_free zero pframes index = none
first_free (suc fuel) pframes index =
    let rest = first_free fuel pframes (index + 1) in
    if pframes index == 0 then some index else rest

pub get_free_page : (fuel : ℕ) → Pframes → Option (ℕ × Pframes)
get_free_page fuel pframes = elim (first_free fuel pframes 0) [
  | none ↦ none
  | some index ↦ some (u32 (index * page_size), update pframes index (u8 (pframes index + 1)))
]

-- `return NULL` is 0, and changes nothing.
pub alloc_page : ℕ → Pframes → ℕ × Pframes
alloc_page phys_addr pframes =
    if phys_addr % page_size == 0
    then (let index = phys_addr / page_size in
        (u32 (index * page_size), update pframes index (u8 (pframes index + 1))))
    else (0, pframes)

pub release_page : ℕ → Pframes → Pframes
release_page id pframes = if pframes id == 0 then pframes else update pframes id (pframes id - 1)
