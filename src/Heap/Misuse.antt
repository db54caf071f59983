-- ===== src/Heap/Misuse.antt =====
-- kernel/memory: calls on which the heap code faults, hangs, or hands out memory twice.
use ulmix_i.Base.{ℕ, ◌+◌, ◌^◌, ◌<◌, ◌≡◌, refl, true, false, none, some, List, [], ◌∷◌, arith, ltb}
use ulmix_i.Heap.{
  Kheap, done, hang, fault, header_size, kfree, kmalloc, release, merge_entries, ◌>>◌, ◌>>=◌,
}
use ulmix_i.Heap.Blocks.{Block, entry_of, Holds}
use ulmix_i.Heap.Release.{kfree_step}
use mathlib.Core.Path.{subst}

-- kfree() of NULL, or of any address below the size of a header, returns with the mutex taken: every
-- later kmalloc() and kfree() hangs.
kfree-hang :
    (k : Kheap) (ptr : ℕ)
    → ptr < header_size
    → k.locked ≡ false
    → (fuel size align description later : ℕ)
    → ((kfree ptr >> kmalloc fuel size align description >>= λ _. λ k'. done tt k') k ≡ hang)
      × ((kfree ptr >> kfree later) k ≡ hang)
unfolding kfree kmalloc
kfree-hang k ptr small u fuel size align description later =
    let e : ltb ptr header_size ≡ true = ground arith in (rw (u, e) refl, rw (u, e) refl)

release_no_previous :
    (k : Kheap) (p next : ℕ) (b : Block)
    → b.free ≡ false
    → 0 < b.size
    → 0 < p
    → k.entries p ≡ some (entry_of b p 0 next)
    → k.entries 0 ≡ none
    → release p k ≡ fault
unfolding release merge_entries
release_no_previous k p next b held full pos hp h0 = ground arith

release_no_next :
    (k : Kheap) (p prev : ℕ) (x y z : Block)
    → x.free ≡ false
    → y.free ≡ false
    → 0 < y.size
    → z.free ≡ true
    → 0 < p
    → k.entries p ≡ some (entry_of x p prev (p + (header_size + x.size)))
    → k.entries (p + (header_size + x.size))
      ≡ some (
          entry_of y
            (p + (header_size + x.size))
            p
            (p + (header_size + x.size) + (header_size + y.size)))
    → k.entries (p + (header_size + x.size) + (header_size + y.size))
      ≡ some (
          entry_of z
            (p + (header_size + x.size) + (header_size + y.size))
            (p + (header_size + x.size))
            0)
    → p + (header_size + x.size) + (header_size + y.size) + (header_size + z.size) < 2 ^ 32
    → k.entries 0 ≡ none
    → release (p + (header_size + x.size)) k ≡ fault
unfolding release merge_entries
release_no_next k p prev x y z hx held full hz pos ep eq er end h0 = ground arith

-- kfree() of the first block of the heap reads the header in front of it through NULL and faults.
kfree-first :
    (k : Kheap) (b : Block) (bs : List Block)
    → Holds k (b ∷ bs)
    → b.free ≡ false
    → 0 < b.size
    → kfree (k.heap_start + header_size) k ≡ fault
kfree-first k b bs hk held full =
    rw (kfree_step k (k.heap_start + header_size) hk.unlocked (omega arith)) (
      subst (λ t. release t (record k { locked = true }) ≡ fault) (omega arith)
        (release_no_previous (record k { locked = true }) k.heap_start _ b held full hk.chain.1
          hk.chain.0 hk.no_null))

-- kfree() of a block that only the last, free block follows faults when it merges the two, in
-- merge_entries(), which writes behind the last block.
kfree-last :
    (k : Kheap) (x y z : Block)
    → Holds k (x ∷ y ∷ z ∷ [])
    → x.free ≡ false
    → y.free ≡ false
    → 0 < y.size
    → z.free ≡ true
    → kfree (k.heap_start + (header_size + x.size) + header_size) k ≡ fault
kfree-last k x y z hk hx held full hz =
    rw
      (kfree_step k (k.heap_start + (header_size + x.size) + header_size) hk.unlocked (omega arith))
      (subst (λ t. release t (record k { locked = true }) ≡ fault) (omega arith)
        (release_no_next (record k { locked = true }) k.heap_start 0 x y z hx held full hz
          hk.chain.1 hk.chain.0 hk.chain.3.0 hk.chain.3.3.0 hk.chain.3.3.2 hk.no_null))
