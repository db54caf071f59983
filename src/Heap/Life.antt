-- ===== src/Heap/Life.antt =====
-- kernel/memory: memory in use, through the allocations and releases of other memory.
use mathlib.Core.Path.{subst}
use ulmix_i.Base.{
  ℕ, ◌+◌, ◌-◌, ◌*◌, ◌^◌, ◌<◌, ◌≤◌, ◌≡◌, ◌≢◌, ◌∙◌, inl, inr, refl, sym, ap, Bool, true, false, ◌&&◌,
  Option, none, some, List, [], ◌∷◌, ◌++◌, arith, ltb, leb, Bool-cases, length,
}
use ulmix_i.Heap.{Entry, Kheap, done, header_size, kmalloc, kfree}
use ulmix_i.Heap.Blocks.{
  Block, Chain, next_of, entry_of, is_nil, Holds, bytes, carve, behind, first_fit,
}
use ulmix_i.Heap.Ensures.{Ensures}
use ulmix_i.Heap.Malloc.{Malloced, kmalloc-first_fit}
use ulmix_i.Heap.Free.{given_back, join, coalesced, released}
use ulmix_i.Heap.Release.{kfree-released, bytes_last}
use ulmix_i.Heap.Setup.{Owns, Sound, first_fit-Sound}

-- What first fit leaves to the owner of the memory at `a`.
abbrev OwnsIn : (a p n d : ℕ) → Option (ℕ × List Block) → Type 0
OwnsIn a p n d none = Unit {0}
OwnsIn a p n d (some (x, cs)) = Owns a p n d cs

behind-OwnsIn :
    (a p n d : ℕ) (b : Block) (r : Option (ℕ × List Block))
    → OwnsIn a (p + (header_size + b.size)) n d r
    → OwnsIn a p n d (behind b r)
behind-OwnsIn a p n d b none h = tt
behind-OwnsIn a p n d b (some (x, cs)) h = inr h

behind_own :
    (a p n d : ℕ) (b : Block) (r : Option (ℕ × List Block))
    → (a ≡ p + header_size) × (b.free ≡ false) × (n ≤ b.size) × (b.description ≡ d)
    → OwnsIn a p n d (behind b r)
behind_own a p n d b none h = tt
behind_own a p n d b (some (x, cs)) h = inl h

-- A free block is carved, and the blocks behind it stand where they stood.
carve-Owns :
    (a p n d m e : ℕ) (b : Block) (bs : List Block)
    → m ≤ b.size
    → Owns a (p + (header_size + b.size)) n d bs
    → Owns a p n d (carve m e b bs)
carve-Owns a p n d m e b bs fits h = elim (Bool-cases (ltb (4 * header_size) (b.size - m))) [
  | inl t ↦
      simp t
        (inr (inr (subst (λ q. Owns a q n d bs) {x = p + (header_size + b.size)} (ground arith) h)))
  | inr t ↦ simp t (inr h)
]

first_fit-Owns :
    (bs : List Block) (a p n d m e : ℕ) → Owns a p n d bs → OwnsIn a p n d (first_fit m e p bs)
unfolding first_fit
first_fit-Owns [] a p n d m e h = absurd h
first_fit-Owns (b ∷ bs) a p n d m e (inl h) = elim (Bool-cases (b.free && leb m b.size)) [
  | inl t ↦ absurd (ground (arith, h.1))
  | inr t ↦ simp t (behind_own a p n d b (first_fit m e (p + (header_size + b.size)) bs) h)
]
first_fit-Owns (b ∷ bs) a p n d m e (inr h) = elim (Bool-cases (b.free && leb m b.size)) [
  | inl t ↦ simp t (carve-Owns a p n d m e b bs (ground arith) h)
  | inr t ↦ simp t (
      behind-OwnsIn a p n d b (first_fit m e (p + (header_size + b.size)) bs)
        (first_fit-Owns bs a (p + (header_size + b.size)) n d m e h))
]

-- Two blocks are joined in front of `bs`: nothing else moves.
joined-Owns :
    (a p n d : ℕ) (x y : Block) (bs : List Block)
    → Owns a (p + (header_size + x.size) + (header_size + y.size)) n d bs
    → Owns a (p + (header_size + (join x y).size)) n d bs
joined-Owns a p n d x y bs h =
    subst (λ q. Owns a q n d bs) {x = p + (header_size + x.size) + (header_size + y.size)}
      (omega arith) h

coalesced-Owns :
    (u v : Bool) (a p n d : ℕ) (x y z : Block) (ws : List Block)
    → x.free ≡ u
    → z.free ≡ v
    → a ≢ p + (header_size + x.size) + header_size
    → Owns a p n d (x ∷ y ∷ z ∷ ws)
    → Owns a p n d (coalesced u v x y z ws)
coalesced-Owns u v a p n d x y z ws ux vz other (inr (inl h)) = absurd (other h.0)
coalesced-Owns true v a p n d x y z ws ux vz other (inl h) = cc (ux, h.1)
coalesced-Owns false true a p n d x y z ws ux vz other (inl h) = inl h
coalesced-Owns false false a p n d x y z ws ux vz other (inl h) = inl h
coalesced-Owns u true a p n d x y z ws ux vz other (inr (inr (inl h))) = cc (vz, h.1)
coalesced-Owns true false a p n d x y z ws ux vz other (inr (inr h)) =
    inr (joined-Owns a p n d x (given_back y) (z ∷ ws) h)
coalesced-Owns false false a p n d x y z ws ux vz other (inr (inr h)) = inr (inr h)
coalesced-Owns true true a p n d x y z ws ux vz other (inr (inr (inr h))) = inr (
    joined-Owns a p n d (join x (given_back y)) z ws (
      subst (λ q. Owns a (q + (header_size + z.size)) n d ws)
        {x = p + (header_size + x.size) + (header_size + y.size)} (omega arith) h))
coalesced-Owns false true a p n d x y z ws ux vz other (inr (inr (inr h))) =
    inr (inr (joined-Owns a (p + (header_size + x.size)) n d (given_back y) z ws h))

released-Owns :
    (xs : List Block) (a p n d : ℕ) (x y z : Block) (ws : List Block)
    → a ≢ p + bytes xs + (header_size + x.size) + header_size
    → Owns a p n d (xs ++ x ∷ y ∷ z ∷ ws)
    → Owns a p n d (xs ++ released x y z ws)
unfolding released
released-Owns [] a p n d x y z ws other h =
    coalesced-Owns x.free z.free a p n d x y z ws refl refl (λ e. other (e ∙ omega arith)) h
released-Owns (b ∷ xs) a p n d x y z ws other (inl h) = inl h
released-Owns (b ∷ xs) a p n d x y z ws other (inr h) =
    inr (
      released-Owns xs a (p + (header_size + b.size)) n d x y z ws (λ e. other (e ∙ omega arith)) h)

-- The headers tell the blocks.
entry_of-inj :
    (b c : Block) (p prev next next' : ℕ)
    → some (entry_of b p prev next) ≡ some (entry_of c p prev next')
    → (b ≡ c) × (next ≡ next')
entry_of-inj b c p prev next next' e = (ground (arith, e), ground (arith, e))

Chain-unique :
    (bs cs : List Block) (h : ℕ → Option Entry) (prev p : ℕ)
    → is_nil bs ≡ is_nil cs
    → Chain h prev p bs
    → Chain h prev p cs
    → bs ≡ cs
Chain-unique [] [] h prev p e x y = refl
Chain-unique [] (c ∷ cs) h prev p e x y = cc e
Chain-unique (b ∷ bs) [] h prev p e x y = cc e
Chain-unique (b ∷ bs) (c ∷ cs) h prev p e x y =
    go (entry_of-inj b c p prev _ _ (sym x.0 ∙ y.0))
      (λ same rest. Chain-unique bs cs h p (p + (header_size + b.size)) same x.3 rest)
  where
    same_nil :
        (bs cs : List Block)
        → 0 < p + (header_size + b.size)
        → next_of p b bs ≡ next_of p b cs
        → is_nil bs ≡ is_nil cs
    same_nil [] [] pos e = refl
    same_nil [] (c ∷ cs) pos e = absurd (omega (arith, e))
    same_nil (b ∷ bs) [] pos e = absurd (omega (arith, e))
    same_nil (b ∷ bs) (c ∷ cs) pos e = refl

    go :
        (b ≡ c) × (next_of p b bs ≡ next_of p c cs)
        → (is_nil bs ≡ is_nil cs → Chain h p (p + (header_size + b.size)) cs → bs ≡ cs)
        → b ∷ bs ≡ c ∷ cs
    go (s, n) ih = λ i.
        s i
        ∷ ih (same_nil bs cs (omega arith) (n ∙ ap (λ t. next_of p t cs) (sym s)))
            (subst (λ (t : Block). Chain h p (p + (header_size + t.size)) cs) (sym s) y.3) i

Holds-unique : {k : Kheap} (bs cs : List Block) → Holds k bs → Holds k cs → bs ≡ cs
Holds-unique {k = k} bs cs x y =
    Chain-unique bs cs k.entries 0 k.heap_start (x.some_block ∙ sym y.some_block) x.chain y.chain

-- A heap with memory at `a` in use: `n` bytes or more, with description `d`.
abbrev pub InUse : (a n d total : ℕ) → Kheap → Type 0
InUse a n d total k =
    (bs : List Block) × Holds k bs × Owns a k.heap_start n d bs × (bytes bs ≡ total)

-- What happens to a heap while the memory at `a` is in use: an allocation with alignment 1, which may find no
-- memory, or the release of other memory, of a block that has one in front of it and two behind it.
pub data Happens (a : ℕ) : Kheap → Kheap → Type 0 where
  allocates :
      {k g : Kheap} (bs : List Block) (fuel n d ptr : ℕ)
      → Holds k bs
      → n < 2 ^ 32
      → length bs < fuel
      → kmalloc fuel n 1 d k ≡ done ptr g
      → Happens a k g
  frees :
      {k g : Kheap} (xs : List Block) (x y z w : Block) (ws : List Block) (ptr : ℕ)
      → Holds k (xs ++ x ∷ y ∷ z ∷ w ∷ ws)
      → y.free ≡ false
      → 0 < y.size
      → ptr ≡ k.heap_start + bytes (xs ++ x ∷ []) + header_size
      → a ≢ ptr
      → kfree ptr k ≡ done tt g
      → Happens a k g

pub data Lives (a : ℕ) (k : Kheap) : Kheap → Type 0 where
  here : Lives a k k
  next : {g h : Kheap} → Lives a k g → Happens a g h → Lives a k h

module _ (a n d total : ℕ) where
  allocated-InUse :
      (k : Kheap) {g : Kheap} (bs : List Block) (m e ptr : ℕ) (r : Option (ℕ × List Block))
      → Owns a k.heap_start n d bs
      → bytes bs ≡ total
      → OwnsIn a k.heap_start n d r
      → Sound m e k.heap_start bs r
      → Malloced k bs e r ptr g
      → InUse a n d total g
  allocated-InUse k bs m e ptr none o all kept s got =
      (bs, got.1, subst (λ p. Owns a p n d bs) (sym got.3) o, all)
  allocated-InUse k bs m e ptr (some (x, cs)) o all kept s got =
      (cs, got.1, subst (λ p. Owns a p n d cs) (sym got.2) kept, s.1 ∙ all)

  Happens-InUse : {k g : Kheap} → Happens a k g → InUse a n d total k → InUse a n d total g
  Happens-InUse {k = k} (allocates bs fuel m e ptr held small enough run) (bs', held', o', all) =
      allocated-InUse k bs m e ptr (first_fit m e k.heap_start bs) o
        (ap bytes (Holds-unique bs bs' held held') ∙ all)
        (first_fit-Owns bs a k.heap_start n d m e o) (first_fit-Sound bs m e k.heap_start)
        (subst (Ensures (Malloced k bs e (first_fit m e k.heap_start bs))) run
          (kmalloc-first_fit k bs fuel m e held small enough))
    where
      o : Owns a k.heap_start n d bs
      o = subst (Owns a k.heap_start n d) (Holds-unique bs' bs held' held) o'
  Happens-InUse {k = k} {g = g} (frees xs x y z w ws ptr held used full at other run)
        (bs', held', o', all) =
      (
        xs ++ released x y z (w ∷ ws),
        left.0,
        subst (λ p. Owns a p n d (xs ++ released x y z (w ∷ ws))) (sym left.1)
            (released-Owns xs a k.heap_start n d x y z (w ∷ ws)
              (λ e. other (e ∙ omega (arith, at, bytes_last xs x))) o),
        left.2 ∙ ap bytes (Holds-unique (xs ++ x ∷ y ∷ z ∷ w ∷ ws) bs' held held') ∙ all,
      )
    where
      left :
          Holds g (xs ++ released x y z (w ∷ ws))
          × (g.heap_start ≡ k.heap_start)
          × (bytes (xs ++ released x y z (w ∷ ws)) ≡ bytes (xs ++ x ∷ y ∷ z ∷ w ∷ ws))
      left =
          subst
            (Ensures (λ _ g.
              Holds g (xs ++ released x y z (w ∷ ws))
              × (g.heap_start ≡ k.heap_start)
              × (bytes (xs ++ released x y z (w ∷ ws)) ≡ bytes (xs ++ x ∷ y ∷ z ∷ w ∷ ws))))
            run (kfree-released k xs x y z w ws ptr held used full at)

      o : Owns a k.heap_start n d (xs ++ x ∷ y ∷ z ∷ w ∷ ws)
      o =
          subst (Owns a k.heap_start n d) (Holds-unique bs' (xs ++ x ∷ y ∷ z ∷ w ∷ ws) held' held)
            o'

  -- Memory stays its owner's, with its size and its description, while other memory is allocated and
  -- released, however often and in whatever order; the heap stays one of adjacent blocks, of as many bytes.
  pub Lives-InUse : {k g : Kheap} → Lives a k g → InUse a n d total k → InUse a n d total g
  Lives-InUse here used = used
  Lives-InUse (next life step) used = Happens-InUse step (Lives-InUse life used)
