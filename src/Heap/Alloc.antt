-- ===== src/Heap/Alloc.antt =====
-- kernel/memory/kmalloc.c: alloc_entry() with no offset carves a block out of a free one.
use ulmix_i.Base.{
  ℕ, ◌+◌, ◌-◌, ◌*◌, ◌^◌, ◌<◌, ◌≤◌, ◌≡◌, ◌∙◌, inl, inr, true, false, Option, some, List, [], ◌∷◌,
  arith, ltb, Bool-cases, ◌⊎◌,
}
use mathlib.Core.Path.{subst}
use ulmix_i.Heap.{Entry, Kheap, header_size, alloc_entry}
use ulmix_i.Heap.Blocks.{Block, Chain, next_of, entry_of, carve}
use ulmix_i.Heap.Ensures.{Ensures, Ensures-all, Ensures-mono}

-- A chain that starts at `p` looks at no address below `p`.
pub Chain-frame :
    (h g : ℕ → Option Entry) (prev p : ℕ) (bs : List Block)
    → Chain h prev p bs
    → ((a : ℕ) → p ≤ a → g a ≡ h a)
    → Chain g prev p bs
Chain-frame h g prev p [] c same = tt
Chain-frame h g prev p (b ∷ bs) c same = (
  same p (omega arith) ∙ c.0,
  c.1,
  c.2,
  Chain-frame h g p (p + (header_size + b.size)) bs c.3 (λ a le. same a (omega arith)),
)

-- The headers that a split of block `b` at `p` touches, when the heap goes on behind it or not.
module _ (k : Kheap) (p n d : ℕ) (b : Block) (prev : ℕ) (pos : 0 < p)
    (end : p + (header_size + b.size) < 2 ^ 32) (fits : n ≤ b.size) where
  alloc_last :
      k.entries p ≡ some (entry_of b p prev 0)
      → Ensures
          (λ a g.
            (a ≡ p + header_size)
            × Chain g.entries prev p (carve n d b [])
            × (g.heap_start ≡ k.heap_start)
            × (g.locked ≡ k.locked))
          (alloc_entry p 0 n d k)
  unfolding alloc_entry
  alloc_last h = ground arith

  alloc_last_same :
      k.entries p ≡ some (entry_of b p prev 0)
      → (a : ℕ) → a < p
      → Ensures (λ _ g. g.entries a ≡ k.entries a) (alloc_entry p 0 n d k)
  unfolding alloc_entry
  alloc_last_same h a lt = ground arith

  module _ (c : Block) (next : ℕ)
      (hp : k.entries p ≡ some (entry_of b p prev (p + (header_size + b.size))))
      (hc : k.entries (p + (header_size + b.size))
        ≡ some (entry_of c (p + (header_size + b.size)) p next)) where
    alloc_mid_same :
        (a : ℕ)
        → (a < p) ⊎ (p + (header_size + b.size) < a)
        → Ensures (λ _ g. g.entries a ≡ k.entries a) (alloc_entry p 0 n d k)
    unfolding alloc_entry
    alloc_mid_same a lt = ground arith

    abbrev taken : ℕ → Block
    taken m = record { free = false; size = m; description = d }

    abbrev rest : Block
    rest = record { free = true; size = b.size - n - header_size; description = 0 }

    alloc_mid_kept :
        ltb (4 * header_size) (b.size - n) ≡ false
        → Ensures
            (λ a g.
              (a ≡ p + header_size)
              × (g.heap_start ≡ k.heap_start)
              × (g.locked ≡ k.locked)
              × (g.entries p ≡ some (entry_of (taken b.size) p prev (p + (header_size + b.size))))
              × (g.entries (p + (header_size + b.size))
                  ≡ some (entry_of c (p + (header_size + b.size)) p next)))
            (alloc_entry p 0 n d k)
    unfolding alloc_entry
    alloc_mid_kept t = ground arith

    alloc_mid_split :
        ltb (4 * header_size) (b.size - n) ≡ true
        → Ensures
            (λ a g.
              (a ≡ p + header_size)
              × (g.heap_start ≡ k.heap_start)
              × (g.locked ≡ k.locked)
              × (g.entries p ≡ some (entry_of (taken n) p prev (p + (header_size + n))))
              × (g.entries (p + (header_size + n))
                  ≡ some (entry_of rest (p + (header_size + n)) p (p + (header_size + b.size))))
              × (g.entries (p + (header_size + b.size))
                  ≡ some (entry_of c (p + (header_size + b.size)) (p + (header_size + n)) next)))
            (alloc_entry p 0 n d k)
    unfolding alloc_entry
    alloc_mid_split t = ground arith

-- What an allocation of `n` bytes from the first of the blocks `b ∷ bs` at `p` leaves.
abbrev pub Carved : Kheap → (n d prev p : ℕ) → Block → List Block → ℕ → Kheap → Type 0
Carved k n d prev p b bs a g =
    (a ≡ p + header_size)
    × (g.heap_start ≡ k.heap_start)
    × (g.locked ≡ k.locked)
    × Chain g.entries prev p (carve n d b bs)
    × ((i : ℕ) → i < p → g.entries i ≡ k.entries i)

pub alloc_entry-carve :
    (k : Kheap) (n d prev p : ℕ) (b : Block) (bs : List Block)
    → Chain k.entries prev p (b ∷ bs)
    → n ≤ b.size
    → Ensures (Carved k n d prev p b bs) (alloc_entry p 0 n d k)
alloc_entry-carve k n d prev p b [] ch fits =
    Ensures-mono _ _ (alloc_entry p 0 n d k)
      (Ensures-all _ (λ (i : (i : ℕ) × (i < p)) _ g. g.entries i.0 ≡ k.entries i.0)
        (alloc_entry p 0 n d k) (alloc_last k p n d b prev ch.1 ch.2 fits ch.0)
        (λ i. alloc_last_same k p n d b prev ch.1 ch.2 fits ch.0 i.0 i.1))
      (λ a g e. (e.0.0, e.0.2, e.0.3, e.0.1, λ i lt. e.1 (i, lt)))
alloc_entry-carve k n d prev p b (c ∷ cs) ch fits =
    elim (Bool-cases (ltb (4 * header_size) (b.size - n))) [
      | inl t ↦
          Ensures-mono _ _ (alloc_entry p 0 n d k)
            (Ensures-all _ same (alloc_entry p 0 n d k)
              (alloc_mid_split k p n d b prev ch.1 ch.2 fits c (next_of r c cs) ch.0 ch.3.0 t)
              outside)
            (λ a g e. (
              e.0.0,
              e.0.1,
              e.0.2,
              rw t (
                e.0.3,
                ch.1,
                omega arith,
                (
                  ground (arith, e.0.4, at_r t),
                  omega arith,
                  omega (arith, at_r t),
                  subst (λ x. Chain g.entries q x (c ∷ cs)) (at_r t)
                      (e.0.5, ch.3.1, ch.3.2, behind_c g.entries e.1),
                ),
              ),
              λ i lt. e.1 (i, inl lt),
            ))
      | inr t ↦
          Ensures-mono _ _ (alloc_entry p 0 n d k)
            (Ensures-all _ same (alloc_entry p 0 n d k)
              (alloc_mid_kept k p n d b prev ch.1 ch.2 fits c (next_of r c cs) ch.0 ch.3.0 t)
              outside)
            (λ a g e. (
              e.0.0,
              e.0.1,
              e.0.2,
              rw t (e.0.3, ch.1, ch.2, (e.0.4, ch.3.1, ch.3.2, behind_c g.entries e.1)),
              λ i lt. e.1 (i, inl lt),
            ))
    ]
  where
    r : ℕ
    r = p + (header_size + b.size)

    q : ℕ
    q = p + (header_size + n)

    Far : Type 0
    Far = (i : ℕ) × ((i < p) ⊎ (r < i))

    same : Far → ℕ → Kheap → Type 0
    same i _ g = g.entries i.0 ≡ k.entries i.0

    outside : (i : Far) → Ensures (same i) (alloc_entry p 0 n d k)
    outside i = alloc_mid_same k p n d b prev ch.1 ch.2 fits c (next_of r c cs) ch.0 ch.3.0 i.0 i.1

    behind_c :
        (g : ℕ → Option Entry)
        → ((i : Far) → g i.0 ≡ k.entries i.0)
        → Chain g r (r + (header_size + c.size)) cs
    behind_c g e =
        Chain-frame k.entries g r (r + (header_size + c.size)) cs ch.3.3
          (λ a le. e (a, inr (omega arith)))

    at_r :
        ltb (4 * header_size) (b.size - n) ≡ true
        → r ≡ q + (header_size + (b.size - n - header_size))
    at_r t = ground arith
