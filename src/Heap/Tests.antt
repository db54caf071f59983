-- ===== src/Heap/Tests.antt =====
-- A run of the heap, and the theorems of kernel/memory at concrete heaps.
use ulmix_i.Base.{ℕ, ◌≡◌, inl, refl, Bool, true, false, Option, none, List, [], ◌∷◌, arith}
use ulmix_i.Heap.{
  Entry, Kheap, Cmd, Outcome, done, setup_heap, kfree, kmalloc, alloc_entry, kmalloc_loop, release,
  merge_entries, update, ◌>>◌, ◌>>=◌,
}
use ulmix_i.Heap.Blocks.{Block, entry_of, Holds, bytes, first_fit}
use ulmix_i.Heap.Ensures.{Ensures}
use ulmix_i.Heap.Malloc.{Malloced, kmalloc-first_fit}
use ulmix_i.Heap.Setup.{Served, kmalloc_sound}
use ulmix_i.Heap.Free.{released}
use ulmix_i.Heap.Release.{kfree-released}
use ulmix_i.Heap.Life.{InUse, allocates, frees, here, next, Lives-InUse}

abbrev empty : Kheap
empty = record { entries = λ _. none; heap_start = 0; locked = false; log = [] }

-- The early heap, three blocks of 100, 200 and 300 bytes; the second is given back and taken again.
abbrev session : Cmd ℕ
session = do
  setup_heap 1 0x80000
  a ← kmalloc 9 100 1 0x5000
  b ← kmalloc 9 200 1 0x5000
  c ← kmalloc 9 300 1 0x5000
  kfree b
  kmalloc 9 200 1 0x6000

abbrev result : Outcome ℕ → ℕ
result (done a k) = a
result _ = 0

session_reuses : result (session empty) ≡ 149
unfolding setup_heap kmalloc kmalloc_loop alloc_entry kfree release merge_entries
session_reuses = refl

abbrev block : Bool → ℕ → ℕ → Block
block f n d = record { free = f; size = n; description = d }

-- Four blocks at 100: in use, in use, free, in use.
abbrev four_blocks : List Block
four_blocks = block false 10 1 ∷ block false 20 2 ∷ block true 400 0 ∷ block false 40 4 ∷ []

abbrev four_entries : ℕ → Option Entry
four_entries =
    update
      (update
        (update (update (λ _. none) 100 (entry_of (block false 10 1) 100 0 134)) 134
          (entry_of (block false 20 2) 134 100 178))
        178 (entry_of (block true 400 0) 178 134 602))
      602 (entry_of (block false 40 4) 602 178 0)

abbrev four_heap : Kheap
four_heap = record { entries = four_entries; heap_start = 100; locked = false; log = [] }

four_heap-Holds : Holds four_heap four_blocks
four_heap-Holds = record {
  chain = (
    refl,
    omega arith,
    omega arith,
    (
      refl,
      omega arith,
      omega arith,
      (refl, omega arith, omega arith, (refl, omega arith, omega arith, tt)),
    ),
  );
  unlocked = refl;
  no_null = refl;
  some_block = refl;
}

kmalloc-first_fit_example :
    Ensures
      (Malloced four_heap four_blocks 7 (first_fit 64 7 100 four_blocks))
      (kmalloc 5 64 1 7 four_heap)
kmalloc-first_fit_example =
    kmalloc-first_fit four_heap four_blocks 5 64 7 four_heap-Holds (omega arith) (omega arith)

kmalloc_sound_example : Ensures (Served four_heap 64 7 four_blocks) (kmalloc 5 64 1 7 four_heap)
kmalloc_sound_example =
    kmalloc_sound four_heap four_blocks 5 64 7 four_heap-Holds (omega arith) (omega arith)

kfree-released_example :
    Ensures
      (λ _ g.
        Holds g (
          released (block false 10 1) (block false 20 2) (block true 400 0) (block false 40 4 ∷ []))
        × (g.heap_start ≡ 100)
        × (bytes (
              released
                (block false 10 1)
                (block false 20 2)
                (block true 400 0)
                (block false 40 4 ∷ []))
            ≡ bytes four_blocks))
      (kfree 158 four_heap)
kfree-released_example =
    kfree-released four_heap [] (block false 10 1) (block false 20 2) (block true 400 0)
      (block false 40 4) [] 158 four_heap-Holds refl (omega arith) refl

-- The second block is given back, and 64 bytes are taken, while the first is in use.
abbrev heap_of : {A : Type 0} → Outcome A → Kheap
heap_of (done a k) = k
heap_of _ = empty

abbrev freed : Kheap
freed = heap_of (kfree 158 four_heap)

abbrev retaken : Kheap
retaken = heap_of (kmalloc 5 64 1 7 freed)

abbrev freed_blocks : List Block
freed_blocks = block false 10 1 ∷ block true 444 0 ∷ block false 40 4 ∷ []

freed-Holds : Holds freed freed_blocks
unfolding kfree release merge_entries
freed-Holds = record {
  chain = (
    refl,
    omega arith,
    omega arith,
    (refl, omega arith, omega arith, (refl, omega arith, omega arith, tt)),
  );
  unlocked = refl;
  no_null = refl;
  some_block = refl;
}

kfree-freed : kfree 158 four_heap ≡ done tt freed
unfolding kfree release merge_entries
kfree-freed = refl

kmalloc-retaken : kmalloc 5 64 1 7 freed ≡ done 158 retaken
unfolding kmalloc kmalloc_loop alloc_entry kfree release merge_entries
kmalloc-retaken = refl

Lives-InUse_example : InUse 124 10 1 (bytes four_blocks) retaken
Lives-InUse_example =
    Lives-InUse 124 10 1 (bytes four_blocks)
      (next
        (next here (
          frees [] (block false 10 1) (block false 20 2) (block true 400 0) (block false 40 4) []
            158 four_heap-Holds refl (omega arith) refl (omega arith) kfree-freed))
        (allocates freed_blocks 5 64 7 158 freed-Holds (omega arith) (omega arith) kmalloc-retaken))
      (four_blocks, four_heap-Holds, inl (refl, refl, omega arith, refl), refl)
