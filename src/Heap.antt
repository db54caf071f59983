-- ===== src/Heap.antt =====
-- kernel/memory/heap.c, kmalloc.c and kfree.c with kernel/include/heap.h: the kernel heap, a doubly
-- linked list of headers that lie in front of the memory that they describe.
-- A pointer is an address and NULL is 0. Reading or writing a header where there is none is a
-- `fault`; taking the locked heap mutex never returns (`hang`); a failed ASSERT is `panicked`.
pub mod Ensures
pub mod Blocks
pub mod Alloc
pub mod Malloc
pub mod Merge
pub mod Free
pub mod Release
pub mod Setup
pub mod Align
pub mod Misuse
pub mod Life
mod Tests
use ulmix_i.Base.{
  ℕ, zero, suc, ◌+◌, ◌-◌, ◌*◌, ◌%◌, ◌^◌, Bool, true, false, not, ◌&&◌, ◌||◌, Option, none, some,
  List, [], ◌∷◌, ltb, leb, ◌==◌, if◌then◌else◌,
}
use ulmix_i.Base.Bits.{u32, sub32}

-- struct kheape_struct. `description` is the address of its text.
pub record Entry : Type 0 where
  pub available : Bool
  pub size : ℕ
  pub start : ℕ
  pub next : ℕ
  pub previous : ℕ
  pub description : ℕ

-- sizeof(struct kheape_struct): six packed fields of four bytes.
abbrev pub header_size : ℕ
header_size = 24

-- The headers in memory, `_heap_start`, `_heap_mtx`, and the messages of kmalloc().
pub record Kheap : Type 0 where
  pub entries : ℕ → Option Entry
  pub heap_start : ℕ
  pub locked : Bool
  pub log : List ℕ

pub data Outcome (A : Type 0) : Type 0 where
  done : A → Kheap → Outcome A
  fault hang panicked out_of_fuel : Outcome A

abbrev pub Cmd : Type 0 → Type 0
Cmd A = Kheap → Outcome A

abbrev pub pure : {A : Type 0} → A → Cmd A
pure a k = done a k

infixl 5 ◌>>=◌ ◌>>◌
abbrev pub ◌>>=◌ : {A B : Type 0} → Cmd A → (A → Cmd B) → Cmd B
◌>>=◌ m f k = elim (m k) [
  | done a k' ↦ f a k'
  | fault ↦ fault
  | hang ↦ hang
  | panicked ↦ panicked
  | out_of_fuel ↦ out_of_fuel
]

abbrev pub ◌>>◌ : {B : Type 0} → Cmd (Unit {0}) → Cmd B → Cmd B
m >> f = m >>= λ _. f

-- `if` between commands.
abbrev pub branch : {A : Type 0} → Bool → Cmd A → Cmd A → Cmd A
branch b m n k = elim b [ true ↦ m k | false ↦ n k ]

abbrev pub update : (ℕ → Option Entry) → ℕ → Entry → ℕ → Option Entry
update h p e a = if p == a then some e else h a

pub load : ℕ → Cmd Entry
load p k = elim (k.entries p) [ none ↦ fault | some e ↦ done e k ]

-- Lays a header down at `p`, whether or not there was one.
pub place : ℕ → Entry → Cmd (Unit {0})
place p e k = done tt (record k { entries = update k.entries p e })

-- Changes fields of the header at `p`.
pub modify : ℕ → (Entry → Entry) → Cmd (Unit {0})
unfolding load place
modify p f = do e ← load p; place p (f e)

pub mutex_lock : Cmd (Unit {0})
mutex_lock k = if k.locked then hang else done tt (record k { locked = true })

pub mutex_unlock : Cmd (Unit {0})
mutex_unlock k = done tt (record k { locked = false })

pub assert : Bool → Cmd (Unit {0})
assert b k = elim b [ true ↦ done tt k | false ↦ panicked ]

pub setup_heap : ℕ → ℕ → Cmd (Unit {0})
setup_heap start_addr max_size k = done tt (record k {
  entries = update k.entries start_addr (record {
    available = true;
    description = 0;
    next = 0;
    previous = 0;
    size = sub32 max_size header_size;
    start = start_addr + header_size;
  });
  heap_start = start_addr;
  locked = false;
})

-- The memory at `addr` has no header yet: its other fields are set by the callers.
pub blank : Entry
blank = record { available = false; size = 0; start = 0; next = 0; previous = 0; description = 0 }

pub link_new_entry : ℕ → ℕ → Cmd ℕ
unfolding load place modify blank
link_new_entry addr prev = do
  p ← load prev
  place addr (record blank { previous = prev; next = p.next })
  if p.next == 0 then pure tt else modify p.next (λ e. record e { previous = addr })
  modify prev (λ e. record e { next = addr })
  pure addr

-- The first half of alloc_entry(): a header in front of aligned memory, if the gap is wide enough.
pub split_front : ℕ → ℕ → Cmd ℕ
unfolding link_new_entry
split_front entry start_offset =
    if leb (4 * header_size) start_offset
    then (do
      e ← load entry
      new_entry ← link_new_entry (e.start + start_offset - header_size) entry
      modify entry (λ e'. record e' { size = sub32 new_entry e'.start })
      pure new_entry)
    else pure entry

pub split_back : ℕ → ℕ → ℕ → ℕ → Cmd (Unit {0})
unfolding link_new_entry
split_back new_entry prev_size start_offset size =
    if ltb (4 * header_size) (sub32 prev_size size)
    then (do
      n ← load new_entry
      new_next ← link_new_entry (n.start + size) new_entry
      modify new_next (λ e. record e {
        start = new_next + header_size;
        available = true;
        description = 0;
        size = u32 (prev_size + 3 * 2 ^ 32 - start_offset - size - header_size);
      })
      modify new_entry (λ e. record e { size = size }))
    else modify new_entry (λ e. record e { size = prev_size })

pub alloc_entry : (entry start_offset size description : ℕ) → Cmd ℕ
unfolding split_front split_back
alloc_entry entry start_offset size description = do
  e ← load entry
  new_entry ← split_front entry start_offset
  e' ← load entry
  modify new_entry (λ n. record n {
    available = false;
    description = description;
    start = e'.start + start_offset;
  })
  split_back new_entry e.size start_offset size
  n ← load new_entry
  pure n.start

-- `%` by 0 is a division fault.
pub next_aligned_addr : ℕ → ℕ → Cmd ℕ
next_aligned_addr addr align =
    if align == 0
    then (λ _. fault)
    else if addr % align == 0
    then pure addr
    else pure (u32 (addr + (align - addr % align)))

report : ℕ → Cmd (Unit {0})
report description k = done tt (record k { log = description ∷ k.log })

-- The loop of kmalloc(), with one unit of fuel for each header it visits.
pub kmalloc_loop : ℕ → (size align description : ℕ) → ℕ → Cmd ℕ
unfolding next_aligned_addr report load mutex_unlock
kmalloc_loop zero size align description entry = λ _. out_of_fuel
kmalloc_loop (suc fuel) size align description entry =
    if entry == 0 then (do report description; mutex_unlock; pure 0) else (do
      e ← load entry
      aligned ← next_aligned_addr e.start align
      let start_offset = sub32 aligned e.start
      if e.available && leb (u32 (size + start_offset)) e.size
          then (do mptr ← alloc_entry entry start_offset size description; mutex_unlock; pure mptr)
          else kmalloc_loop fuel size align description e.next)

pub kmalloc : ℕ → (size align description : ℕ) → Cmd ℕ
unfolding mutex_lock
kmalloc fuel size align description =
    mutex_lock >> λ k. kmalloc_loop fuel size align description k.heap_start k

pub merge_entries : ℕ → ℕ → Cmd ℕ
unfolding load modify assert
merge_entries first second = do
  f ← load first
  s ← load second
  assert (ltb first second)
  assert (f.available && s.available)
  assert (s.previous == first)
  modify first (λ e. record e { next = s.next; start = first + header_size })
  modify s.next (λ e. record e { previous = first })
  modify first (λ e. record e { size = sub32 (u32 (s.start + s.size)) e.start })
  pure first

-- kfree() once the mutex is taken and the pointer has passed the first check.
pub release : ℕ → Cmd (Unit {0})
unfolding load modify mutex_unlock
release heap_entry = do
  e ← load heap_entry
  branch (e.available || e.size == 0 || e.start == 0) mutex_unlock do
    modify heap_entry (λ e'. record e' { available = true; description = 0 })
    p ← load e.previous
    merged ← branch p.available (merge_entries e.previous heap_entry) (pure heap_entry)
    m ← load merged
    n ← load m.next
    branch n.available (merge_entries merged m.next >>= λ _. pure tt) (pure tt)
    mutex_unlock

-- An early `return` leaves the mutex taken. Where no header stands in front of the memory, the code reads the bytes
-- that are there as one; what they make it do is not modelled, and is `fault` here.
pub kfree : ℕ → Cmd (Unit {0})
unfolding mutex_lock
kfree ptr = mutex_lock >> branch (ltb ptr header_size) (pure tt) (release (ptr - header_size))
