-- ===== src/Heap/Align.antt =====
-- kernel/memory/kmalloc.c: next_aligned_addr().
use ulmix_i.Base.{ℕ, ◌+◌, ◌-◌, ◌%◌, ◌^◌, ◌<◌, ◌≤◌, ◌≡◌, sym, ap, ◌∙◌, arith}
use ulmix_i.Heap.{Kheap, next_aligned_addr}
use ulmix_i.Heap.Ensures.{Ensures}
use native.Mathlib.Nat.{mod-lt, mod-add-mod, mod_self}

next_multiple : (a m : ℕ) → 0 < m → (a + (m - a % m)) % m ≡ 0
next_multiple a m pos =
    sym (mod-add-mod a m (m - a % m))
    ∙ ap (λ (t : ℕ). t % m) (omega (arith, mod-lt a pos))
    ∙ mod_self m

-- For a positive alignment, and where the next multiple lies below 4 GB, next_aligned_addr() gives
-- the least multiple of the alignment that is not below the address.
next_aligned_addr_least :
    (addr align : ℕ) (k : Kheap)
    → 0 < align
    → addr + align < 2 ^ 32
    → Ensures
        (λ a g. (a % align ≡ 0) × (addr ≤ a) × (a < addr + align) × (g ≡ k))
        (next_aligned_addr addr align k)
unfolding next_aligned_addr
next_aligned_addr_least addr align k pos room =
    ground (arith, next_multiple addr align pos, mod-lt addr pos)
