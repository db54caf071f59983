-- ===== src/Heap/Setup.antt =====
-- kernel/memory/heap.c: the first block; and what first fit keeps.
use ulmix_i.Base.{
  ℕ, ◌+◌, ◌-◌, ◌*◌, ◌^◌, ◌<◌, ◌≤◌, ◌≡◌, refl, inl, inr, true, false, ◌&&◌, Option, none, some, List,
  [], ◌∷◌, arith, ltb, leb, if◌then◌else◌, Bool-cases, ◌⊎◌, length,
}
use ulmix_i.Heap.{Kheap, header_size, setup_heap, kmalloc}
use ulmix_i.Heap.Blocks.{Block, Holds, bytes, first_fit, carve, behind}
use ulmix_i.Heap.Ensures.{Ensures, Ensures-mono}
use ulmix_i.Heap.Malloc.{Malloced, kmalloc-first_fit}

-- setup_heap() makes a heap of one free block that takes all of the memory but its header.
setup_heap-Holds :
    (k : Kheap) (start_addr max_size : ℕ)
    → k.entries 0 ≡ none
    → 0 < start_addr
    → header_size ≤ max_size
    → start_addr + max_size < 2 ^ 32
    → Ensures
        (λ _ g.
          Holds g (record { free = true; size = max_size - header_size; description = 0 } ∷ [])
          × (g.heap_start ≡ start_addr))
        (setup_heap start_addr max_size k)
unfolding setup_heap
setup_heap-Holds k a n none0 pos room end = (
  record {
    chain = (ground arith, pos, omega arith, tt);
    unlocked = refl;
    no_null = ground arith;
    some_block = refl;
  },
  refl,
)

-- The memory at `a` belongs to a block in use of at least `n` bytes with description `d`.
abbrev pub Owns : ℕ → ℕ → (n d : ℕ) → List Block → Type 0
Owns a p n d [] = ⊥
Owns a p n d (b ∷ bs) =
    ((a ≡ p + header_size) × (b.free ≡ false) × (n ≤ b.size) × (b.description ≡ d))
    ⊎ Owns a (p + (header_size + b.size)) n d bs

-- The blocks in use of a list.
abbrev pub in_use : List Block → ℕ
in_use [] = 0
in_use (b ∷ bs) = (if b.free then 0 else 1) + in_use bs

-- No free block is large enough.
abbrev pub NoFit : (n : ℕ) → List Block → Type 0
NoFit n [] = Unit {0}
NoFit n (b ∷ bs) = ((b.free && leb n b.size) ≡ false) × NoFit n bs

abbrev pub Sound : (n d p : ℕ) → List Block → Option (ℕ × List Block) → Type 0
Sound n d p bs none = NoFit n bs
Sound n d p bs (some (a, cs)) =
    Owns a p n d cs × (bytes cs ≡ bytes bs) × (in_use cs ≡ in_use bs + 1)

behind-Sound :
    (n d p : ℕ) (b : Block) (bs : List Block) (r : Option (ℕ × List Block))
    → (b.free && leb n b.size) ≡ false
    → Sound n d (p + (header_size + b.size)) bs r
    → Sound n d p (b ∷ bs) (behind b r)
behind-Sound n d p b bs none t h = (t, h)
behind-Sound n d p b bs (some (a, cs)) t h = (inr h.0, omega (arith, h.1), omega (arith, h.2))

carve-Sound :
    (n d p : ℕ) (b : Block) (bs : List Block)
    → b.free ≡ true
    → n ≤ b.size
    → Sound n d p (b ∷ bs) (some (p + header_size, carve n d b bs))
carve-Sound n d p b bs free fits = elim (Bool-cases (ltb (4 * header_size) (b.size - n))) [
  | inl t ↦ simp t (inl (refl, refl, omega arith, refl), ground arith, ground arith)
  | inr t ↦ simp t (inl (refl, refl, fits, refl), refl, ground arith)
]

pub first_fit-Sound : (bs : List Block) (n d p : ℕ) → Sound n d p bs (first_fit n d p bs)
unfolding first_fit
first_fit-Sound [] n d p = tt
first_fit-Sound (b ∷ bs) n d p = elim (Bool-cases (b.free && leb n b.size)) [
  | inl t ↦ simp t (carve-Sound n d p b bs (ground arith) (ground arith))
  | inr t ↦
      simp t (behind-Sound n d p b bs _ t (first_fit-Sound bs n d (p + (header_size + b.size))))
]

-- What a program may rely on: NULL and the same blocks, or memory of its own.
abbrev pub Served : Kheap → (n d : ℕ) → List Block → ℕ → Kheap → Type 0
Served k n d bs a g =
    ((a ≡ 0) × Holds g bs × NoFit n bs)
    ⊎ ((cs : List Block) × Holds g cs
        × Owns a g.heap_start n d cs
        × (bytes cs ≡ bytes bs)
        × (in_use cs ≡ in_use bs + 1))

serve :
    (k : Kheap) (n d : ℕ) (bs : List Block) (r : Option (ℕ × List Block)) (a : ℕ) (g : Kheap)
    → Sound n d k.heap_start bs r
    → Malloced k bs d r a g
    → Served k n d bs a g
serve k n d bs none a g sound got = inl (got.0, got.1, sound)
serve k n d bs (some (x, cs)) a g sound got =
    inr (cs, got.1, rw (got.0, got.2) sound.0, sound.1, sound.2)

-- On a heap that holds the blocks `bs`, kmalloc() with alignment 1 returns NULL, and then no free
-- block is large enough and the blocks are as they were, or it returns the memory of a block in use that is large enough and has the given
-- description; then exactly one more block is in use, and the blocks take as many bytes as before.
-- The loop needs one round for each block and one more.
pub kmalloc_sound :
    (k : Kheap) (bs : List Block) (fuel n d : ℕ)
    → Holds k bs
    → n < 2 ^ 32
    → length bs < fuel
    → Ensures (Served k n d bs) (kmalloc fuel n 1 d k)
kmalloc_sound k bs fuel n d hk small enough =
    Ensures-mono _ _ (kmalloc fuel n 1 d k) (kmalloc-first_fit k bs fuel n d hk small enough)
      (λ a g got.
        serve k n d bs (first_fit n d k.heap_start bs) a g (first_fit-Sound bs n d k.heap_start)
          got)
