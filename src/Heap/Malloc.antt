-- ===== src/Heap/Malloc.antt =====
-- kernel/memory/kmalloc.c: with alignment 1, kmalloc() is first fit on blocks.
use ulmix_i.Base.{
  ℕ, zero, suc, ◌+◌, ◌^◌, ◌<◌, ◌≤◌, ◌≡◌, ◌∙◌, refl, inl, inr, true, false, ◌&&◌, Option, none, some,
  List, [], ◌∷◌, arith, leb, if◌then◌else◌, Bool-cases, length,
}
use ulmix_i.Heap.{
  Kheap, Cmd, Outcome, done, fault, hang, panicked, out_of_fuel, header_size, alloc_entry,
  kmalloc_loop, kmalloc, mutex_lock, mutex_unlock, pure, ◌>>=◌, ◌>>◌,
}
use ulmix_i.Heap.Blocks.{Block, Chain, entry_of, carve, first_fit, behind, is_nil, Holds}
use ulmix_i.Heap.Ensures.{Ensures, Ensures-mono}
use ulmix_i.Heap.Alloc.{Carved, alloc_entry-carve}

-- What the loop gives for the outcome of `first_fit`, when it starts at the blocks from `p` on.
abbrev pub Fitted : Kheap → (d prev p : ℕ) → Option (ℕ × List Block) → ℕ → Kheap → Type 0
Fitted k d prev p none a g = (a ≡ 0) × (g ≡ record k { locked = false; log = d ∷ k.log })
Fitted k d prev p (some (x, cs)) a g =
    (a ≡ x)
    × (g.heap_start ≡ k.heap_start)
    × (g.locked ≡ false)
    × Chain g.entries prev p cs
    × ((i : ℕ) → i < p → g.entries i ≡ k.entries i)
    × (is_nil cs ≡ false)

module _ (n d : ℕ) (small : n < 2 ^ 32) where
  loop_end :
      (f : ℕ) (k : Kheap) (prev p : ℕ)
      → Ensures (Fitted k d prev p none) (kmalloc_loop (suc f) n 1 d 0 k)
  unfolding kmalloc_loop
  loop_end f k prev p = (refl, refl)

  abbrev take_it : ℕ → Cmd ℕ
  take_it p = do mptr ← alloc_entry p 0 n d; mutex_unlock; pure mptr

  loop_step :
      (f : ℕ) (k : Kheap) (prev p next : ℕ) (b : Block)
      → k.entries p ≡ some (entry_of b p prev next)
      → 0 < p
      → p + (header_size + b.size) < 2 ^ 32
      → kmalloc_loop (suc f) n 1 d p k
        ≡ (if b.free && leb n b.size then take_it p k else kmalloc_loop f n 1 d next k)
  unfolding kmalloc_loop
  loop_step f k prev p next b h pos end = ground arith

  taken :
      (k : Kheap) (prev p : ℕ) (b : Block) (bs : List Block)
      → Chain k.entries prev p (b ∷ bs)
      → n ≤ b.size
      → Ensures (Fitted k d prev p (some (p + header_size, carve n d b bs))) (take_it p k)
  unfolding mutex_unlock
  taken k prev p b bs ch fits =
      go (alloc_entry p 0 n d k) (alloc_entry-carve k n d prev p b bs ch fits)
    where
      go :
          (o : Outcome ℕ)
          → Ensures (Carved k n d prev p b bs) o
          → Ensures (Fitted k d prev p (some (p + header_size, carve n d b bs))) (elim o [
            | done a k' ↦ done a (record k' { locked = false })
            | Outcome.fault ↦ Outcome.fault
            | Outcome.hang ↦ Outcome.hang
            | Outcome.panicked ↦ Outcome.panicked
            | Outcome.out_of_fuel ↦ Outcome.out_of_fuel
          ])
      go (done a g) e = (e.0, e.1, refl, e.3, e.4, ground arith)
      go fault e = e
      go hang e = e
      go panicked e = e
      go out_of_fuel e = e

  -- One block in front of the blocks that the rest of the loop deals with.
  in_front :
      (k : Kheap) (prev p : ℕ) (b : Block) (bs : List Block) (r : Option (ℕ × List Block)) (a : ℕ)
      (g : Kheap)
      → Chain k.entries prev p (b ∷ bs)
      → is_nil bs ≡ false
      → Fitted k d p (p + (header_size + b.size)) r a g
      → Fitted k d prev p (behind b r) a g
  in_front k prev p b bs none a g ch full e = e
  in_front k prev p b bs (some (x, [])) a g ch full e = ground arith
  in_front k prev p b [] (some (x, c ∷ cs)) a g ch full e = ground arith
  in_front k prev p b (b' ∷ bs) (some (x, c ∷ cs)) a g ch full e = (
    e.0,
    e.1,
    e.2,
    (e.4 p (omega arith) ∙ ch.0, ch.1, ch.2, e.3),
    (λ i lt. e.4 i (omega arith)),
    refl,
  )

  pub kmalloc_loop-first_fit :
      (bs : List Block) (b : Block) (f : ℕ) (k : Kheap) (prev p : ℕ)
      → Chain k.entries prev p (b ∷ bs)
      → length bs + 1 < f
      → Ensures (Fitted k d prev p (first_fit n d p (b ∷ bs))) (kmalloc_loop f n 1 d p k)
  unfolding first_fit
  kmalloc_loop-first_fit bs b zero k prev p ch fuel = absurd (omega arith)
  kmalloc_loop-first_fit [] b (suc zero) k prev p ch fuel = absurd (omega arith)
  kmalloc_loop-first_fit [] b (suc (suc f)) k prev p ch fuel =
      rw (loop_step (suc f) k prev p 0 b ch.0 ch.1 ch.2)
        (elim (Bool-cases (b.free && leb n b.size)) [
          | inl t ↦ rw t (taken k prev p b [] ch (ground arith))
          | inr t ↦ rw t (loop_end f k prev p)
        ])
  kmalloc_loop-first_fit (c ∷ cs) b (suc f) k prev p ch fuel =
      rw (loop_step f k prev p (p + (header_size + b.size)) b ch.0 ch.1 ch.2)
        (elim (Bool-cases (b.free && leb n b.size)) [
          | inl t ↦ rw t (taken k prev p b (c ∷ cs) ch (ground arith))
          | inr t ↦ rw t (
              Ensures-mono _ _ (kmalloc_loop f n 1 d (p + (header_size + b.size)) k)
                (kmalloc_loop-first_fit cs c f k p (p + (header_size + b.size)) ch.3 (omega arith))
                (λ a g e. in_front k prev p b (c ∷ cs) _ a g ch refl e))
        ])

-- What kmalloc() owes its caller, for the outcome of first fit.
abbrev pub Malloced : Kheap → List Block → (d : ℕ) → Option (ℕ × List Block) → ℕ → Kheap → Type 0
Malloced k bs d none a g =
    (a ≡ 0) × Holds g bs × (g.log ≡ d ∷ k.log) × (g.heap_start ≡ k.heap_start)
Malloced k bs d (some (x, cs)) a g = (a ≡ x) × Holds g cs × (g.heap_start ≡ k.heap_start)

fitted→Malloced :
    (k g : Kheap) (d : ℕ) (b : Block) (bs : List Block) (r : Option (ℕ × List Block)) (a : ℕ)
    → Holds k (b ∷ bs)
    → Fitted (record k { locked = true }) d 0 k.heap_start r a g
    → Malloced k (b ∷ bs) d r a g
fitted→Malloced k g d b bs none a hk (e, eq) = (
  e,
  rw eq (record { chain = hk.chain; unlocked = refl; no_null = hk.no_null; some_block = refl }),
  rw eq,
  rw eq,
)
fitted→Malloced k g d b bs (some (x, cs)) a hk (e, s, u, ch, same, full) = (
  e,
  record {
    chain = rw s ch;
    unlocked = u;
    no_null = same 0 hk.chain.1 ∙ hk.no_null;
    some_block = full;
  },
  s,
)

-- On a heap that holds the blocks `bs`, kmalloc() with alignment 1 answers by first fit: the address
-- and the blocks are those of `first_fit`; if no free block is large enough, it returns NULL,
-- reports the description, and the blocks are what they were. The mutex is free afterwards. The
-- loop needs one round for each block and one more.
pub kmalloc-first_fit :
    (k : Kheap) (bs : List Block) (fuel n d : ℕ)
    → Holds k bs
    → n < 2 ^ 32
    → length bs < fuel
    → Ensures (Malloced k bs d (first_fit n d k.heap_start bs)) (kmalloc fuel n 1 d k)
unfolding kmalloc mutex_lock
kmalloc-first_fit k [] fuel n d hk small enough = ground (arith, hk.some_block)
kmalloc-first_fit k (b ∷ bs) fuel n d hk small enough = rw hk.unlocked (
    Ensures-mono _ _ (kmalloc_loop fuel n 1 d k.heap_start (record k { locked = true }))
      (kmalloc_loop-first_fit n d small bs b fuel (record k { locked = true }) 0 k.heap_start
        hk.chain (omega arith))
      (λ a g e. fitted→Malloced k g d b bs _ a hk e))
