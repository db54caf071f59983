-- ===== src/Paging/Mapping.antt =====
-- arch/i686/mmhelper.c: the entries that map_pages() and mm_map() write.
use Prim.Native.Nat.{bit_or}
use ulmix_i.Base.{
  ℕ, zero, suc, ◌+◌, ◌-◌, ◌*◌, ◌/◌, ◌%◌, ◌^◌, ◌<◌, ◌≤◌, ◌≡◌, ◌≢◌, refl, sym, ap, ◌∙◌, ◌⊎◌, inl, inr,
  ◌&&◌, Option, none, some, arith, ltb, leb, ◌==◌, if◌then◌else◌, Bool-cases, Bool, true, false,
  not, ◌||◌,
}
use ulmix_i.Base.Bits.{u32}
use ulmix_i.Paging.{
  update, table_count, dir_entry, get_pt_entry, Tables, Table, page_size, pg_present, page_of,
  set_entry, map_loop, mm_map,
}

-- The entry of page `page` of an address space: 0, not present, where there is no table.
abbrev pub entry_in : Option Table → ℕ → ℕ
entry_in none i = 0
entry_in (some t) i = t.entry i

abbrev pub entry_of : Tables → ℕ → ℕ
entry_of mm page = entry_in (mm.page_tables (page / 512)) (page % 512)

abbrev pub flagged : ℕ → ℕ → ℕ
flagged phys crflags = bit_or phys (bit_or pg_present crflags)

set_entry-entry_of :
    (mm : Tables) (pd pt phys crflags page : ℕ)
    → pt < 512
    → pd < 512
    → entry_of (set_entry mm pd pt phys crflags) page
      ≡ (if page == pd * 512 + pt then flagged phys crflags else entry_of mm page)
unfolding set_entry
set_entry-entry_of mm pd pt phys crflags page lt inside = ground arith

-- The entry that `n` pages from page `first` on, mapped to `phys` and up, give for `page`.
abbrev pub mapped : (n first phys crflags page old : ℕ) → ℕ
mapped n first phys crflags page old =
    if leb first page && ltb page (first + n)
    then flagged (phys + (page - first) * page_size) crflags
    else old

mapped-suc :
    (n first phys crflags page old : ℕ)
    → mapped n
        (first + 1)
        (phys + page_size)
        crflags
        page
        (if page == first then flagged phys crflags else old)
      ≡ mapped (suc n) first phys crflags page old
mapped-suc n first phys crflags page old = elim (Bool-cases (page == first)) [
  | inl e ↦ ground (arith, same page first (ground arith))
  | inr e ↦ ground (arith, later page first phys)
]
  where
    same : (a b : ℕ) → a ≡ b → phys + (a - b) * page_size ≡ phys
    same a b e = omega arith

    later :
        (a b c : ℕ) → b < a → c + page_size + (a - (b + 1)) * page_size ≡ c + (a - b) * page_size
    later a b c lt = omega arith

map_loop-entry_of :
    (n : ℕ) (mm : Tables) (pd pt phys crflags page : ℕ)
    → pt < 512
    → pd * 512 + pt + n ≤ 512 * 512
    → phys + n * page_size < 2 ^ 32
    → entry_of (map_loop n mm pd pt phys crflags) page
      ≡ mapped n (pd * 512 + pt) phys crflags page (entry_of mm page)
unfolding map_loop
map_loop-entry_of zero mm pd pt phys crflags page lt fits room = ground arith
map_loop-entry_of (suc n) mm pd pt phys crflags page lt fits room =
    map_loop-entry_of n (set_entry mm pd pt phys crflags) next_pd next_pt (u32 (phys + page_size))
      crflags page (ground arith) (omega (arith, index)) (omega arith)
    ∙ (λ i.
        mapped n (index i) (address i) crflags page
          (set_entry-entry_of mm pd pt phys crflags page lt (omega arith) i))
    ∙ mapped-suc n (pd * 512 + pt) phys crflags page (entry_of mm page)
  where
    next_pd : ℕ
    next_pd = if pt + 1 == 512 then pd + 1 else pd

    next_pt : ℕ
    next_pt = if pt + 1 == 512 then 0 else pt + 1

    index : next_pd * 512 + next_pt ≡ pd * 512 + pt + 1
    index = ground arith

    address : u32 (phys + page_size) ≡ phys + page_size
    address = omega arith

-- The pages that a mapping of `n` bytes covers.
abbrev pub pages_of : ℕ → ℕ
pages_of n = n / page_size + (if n % page_size == 0 then 0 else 1)

-- Each table that is there is in the page directory, at its own place, present, for writing and for the user; and
-- the tables, those that are still to come too, begin at a page.
abbrev pub Joined : Option Table → (pde fresh : ℕ) → Type 0
Joined none pde fresh = fresh % page_size ≡ 0
Joined (some t) pde fresh = (pde ≡ bit_or t.addr 7) × (t.addr % page_size ≡ 0)

abbrev pub Linked : Tables → Type 0
Linked mm = (i : ℕ) → Joined (mm.page_tables i) (mm.page_dir i) (mm.fresh i)

if_Joined :
    (b : Bool) (t : Table) (old : Option Table) (x y fresh : ℕ)
    → Joined (some t) x fresh
    → Joined old y fresh
    → Joined (if b then some t else old) (if b then x else y) fresh
if_Joined true t old x y fresh f g = f
if_Joined false t old x y fresh f g = g

get_pt_entry-Joined :
    (mm : Tables) (pd : ℕ)
    → Linked mm
    → Linked (get_pt_entry mm pd).0
      × Joined (some (get_pt_entry mm pd).1) ((get_pt_entry mm pd).0.page_dir pd) (mm.fresh pd)
unfolding get_pt_entry
get_pt_entry-Joined mm pd h = go (mm.page_tables pd) (h pd)
  where
    new : Table
    new = record { addr = mm.fresh pd; entry = λ _. 0 }

    got : Option Table → Tables × Table
    got none = (
      record mm {
        page_tables = update mm.page_tables pd (some new);
        page_dir = update mm.page_dir pd (dir_entry (mm.fresh pd));
      },
      new,
    )
    got (some ptable) = (mm, ptable)

    present : update mm.page_dir pd (dir_entry (mm.fresh pd)) pd ≡ bit_or (mm.fresh pd) 7
    present = ground arith

    go :
        (t : Option Table)
        → Joined t (mm.page_dir pd) (mm.fresh pd)
        → Linked (got t).0 × Joined (some (got t).1) ((got t).0.page_dir pd) (mm.fresh pd)
    go none l = (
      (λ i.
          if_Joined (pd == i) new (mm.page_tables i) (dir_entry (mm.fresh pd)) (mm.page_dir i)
            (mm.fresh i) (refl, l) (h i)),
      (present, l),
    )
    go (some t) l = (h, l)

set_entry-Linked :
    (mm : Tables) (pd pt phys crflags : ℕ) → Linked mm → Linked (set_entry mm pd pt phys crflags)
unfolding set_entry
set_entry-Linked mm pd pt phys crflags h i = elim (Bool-cases (ltb pd table_count)) [
  | inr out ↦ rw out (h i)
  | inl here ↦ rw here (elim (Bool-cases (pd == i)) [
    | inl e ↦
        let (there, aligned) = (get_pt_entry-Joined mm pd h).1 in
        rw e (ap (get_pt_entry mm pd).0.page_dir (sym (==-same e)) ∙ there, aligned)
    | inr e ↦ rw e ((get_pt_entry-Joined mm pd h).0 i)
  ])
]
  where
    ==-same : pd == i ≡ true → pd ≡ i
    ==-same e = ground arith

map_loop-Linked :
    (n : ℕ) (mm : Tables) (pd pt phys crflags : ℕ)
    → Linked mm
    → Linked (map_loop n mm pd pt phys crflags)
unfolding map_loop
map_loop-Linked zero mm pd pt phys crflags h = h
map_loop-Linked (suc n) mm pd pt phys crflags h =
    map_loop-Linked n (set_entry mm pd pt phys crflags) _ _ _ crflags
      (set_entry-Linked mm pd pt phys crflags h)

mm_map-Linked :
    (mm : Tables) (start_virt start_phys n crflags : ℕ)
    → Linked mm
    → Linked (mm_map mm start_virt start_phys n crflags)
unfolding mm_map
mm_map-Linked mm v p n crflags h =
    either (not (v % page_size == 0) || not (p % page_size == 0)) mm _ h
      (either (ltb n 1) mm _ h (map_loop-Linked (pages_of n) mm _ _ _ crflags h))
  where
    either : (b : Bool) (x y : Tables) → Linked x → Linked y → Linked (if b then x else y)
    either true x y hx hy = hx
    either false x y hx hy = hy

-- mm_map() of `n` bytes at page-aligned addresses, where the virtual range ends at 1 GB or below, as the arrays of
-- the tables do, and the physical range below 4 GB, gives the entry of every page that the range touches: page
-- `j` of the range has the address of the `j`-th frame with PG_PRESENT and the given flags; every other page
-- keeps its entry. If each table was in the page directory before, at its own place and with the flags for present,
-- writing and user, and the tables, with those that kmalloc() is to give, begin at a page, then that holds behind
-- the call too.
pub mm_map-entry_of :
    (mm : Tables) (start_virt start_phys n crflags page : ℕ)
    → start_virt % page_size ≡ 0
    → start_phys % page_size ≡ 0
    → start_virt + pages_of n * page_size ≤ 2 ^ 30
    → start_phys + pages_of n * page_size < 2 ^ 32
    → (entry_of (mm_map mm start_virt start_phys n crflags) page
        ≡ mapped (pages_of n) (start_virt / page_size) start_phys crflags page (entry_of mm page))
      × (Linked mm → Linked (mm_map mm start_virt start_phys n crflags))
unfolding mm_map
mm_map-entry_of mm v p n crflags page av ap' fits room = (
  elim (Bool-cases (ltb n 1)) [
    | inl small ↦ rw (av, ap', small) (no_pages (pages_of n) (v / page_size) (ground arith))
    | inr some_bytes ↦
        rw (av, ap', some_bytes)
          (map_loop-entry_of (pages_of n) mm (v / page_size / 512) (v / page_size % 512) (page_of p)
              crflags page (omega arith) (omega arith) (omega arith)
            ∙ (λ i.
                mapped (pages_of n) (split (v / page_size) i) (aligned i) crflags page
                  (entry_of mm page)))
  ],
  mm_map-Linked mm v p n crflags,
)
  where
    no_pages :
        (k first : ℕ) → k ≡ 0 → entry_of mm page ≡ mapped k first p crflags page (entry_of mm page)
    no_pages k first e = ground arith

    split : (a : ℕ) → a / 512 * 512 + a % 512 ≡ a
    split a = omega arith

    aligned : page_of p ≡ p
    aligned = omega arith

-- Where one of the addresses is not aligned to a page, mm_map() maps nothing.
pub mm_map_unaligned :
    (mm : Tables) (start_virt start_phys n crflags : ℕ)
    → (start_virt % page_size ≢ 0) ⊎ (start_phys % page_size ≢ 0)
    → mm_map mm start_virt start_phys n crflags ≡ mm
unfolding mm_map
mm_map_unaligned mm v p n crflags h = ground arith
