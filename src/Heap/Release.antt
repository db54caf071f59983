-- ===== src/Heap/Release.antt =====
-- kernel/memory/kfree.c: on blocks, release is the merging of free neighbours.
use ulmix_i.Base.{
  ℕ, ◌+◌, ◌-◌, ◌<◌, ◌≤◌, ◌≡◌, ◌∙◌, sym, ap, refl, inl, inr, true, false, Option, some, List, [],
  ◌∷◌, ◌++◌, arith, ltb, Bool-cases, ◌⊎◌,
}
use mathlib.Core.Path.{subst}
use ulmix_i.Heap.{Entry, Kheap, header_size, release, kfree}
use ulmix_i.Heap.Blocks.{Block, Chain, next_of, entry_of, is_nil, Holds, bytes}
use ulmix_i.Heap.Ensures.{Ensures, Ensures-all, Ensures-mono}
use ulmix_i.Heap.Alloc.{Chain-frame}
use ulmix_i.Heap.Free.{
  coalesced, released, Four, Neither, Before, After, Both, release_same, release-Neither,
  release-Before, release-After, release-Both,
}

abbrev Freed : Kheap → (prev p : ℕ) → List Block → Kheap → Type 0
Freed k prev p bs g =
    Chain g.entries prev p bs
    × (g.heap_start ≡ k.heap_start)
    × (g.locked ≡ false)
    × ((i : ℕ) → i < p → g.entries i ≡ k.entries i)

module _ (k : Kheap) (prev p : ℕ) (x y z w : Block) (ws : List Block) (held : y.free ≡ false)
    (full : 0 < y.size) (ch : Chain k.entries prev p (x ∷ y ∷ z ∷ w ∷ ws)) where
  abbrev s' : ℕ
  s' = p + (header_size + x.size) + (header_size + y.size) + (header_size + z.size)

  abbrev Far : Type 0
  Far = (i : ℕ) × ((i < p) ⊎ (s' < i))

  abbrev Outside : Far → Unit {0} → Kheap → Type 0
  Outside i _ g = g.entries i.0 ≡ k.entries i.0

  abbrev next : ℕ
  next = next_of s' w ws

  four : Four prev p next x y z w k
  four = record { hx = ch.0; hy = ch.3.0; hz = ch.3.3.0; hw = ch.3.3.3.0 }

  outside : (i : Far) → Ensures (Outside i) (release (p + (header_size + x.size)) k)
  outside (i, far) =
      release_same k prev p next x y z w held full ch.1 (omega arith) four i (omega arith)
        (omega arith) (omega arith) (omega arith)

  tail :
      (g : Kheap)
      → ((i : Far) → Outside i tt g)
      → Chain g.entries s' (s' + (header_size + w.size)) ws
  tail g e =
      Chain-frame k.entries g.entries s' (s' + (header_size + w.size)) ws ch.3.3.3.3
        (λ a le. e (a, inr (omega arith)))

  at_w :
      (g : Kheap) (before : ℕ)
      → g.entries s' ≡ some (entry_of w s' before next)
      → ((i : Far) → Outside i tt g)
      → Chain g.entries before s' (w ∷ ws)
  at_w g before h e = (h, ch.3.3.3.1, ch.3.3.3.2, tail g e)

  abbrev start : ℕ
  start = p + (header_size + x.size)

  abbrev y_end : ℕ
  y_end = start + (header_size + y.size)

  -- The headers that the four lemmas give, as a chain of blocks.
  by_cases :
      (P : Kheap → Type 0)
      → Ensures (λ _ g. (g.heap_start ≡ k.heap_start) × (g.locked ≡ false) × P g) (release start k)
      → ((g : Kheap)
          → P g
          → ((i : Far) → Outside i tt g)
          → Chain g.entries prev p (released x y z (w ∷ ws)))
      → Ensures (λ _ g. Freed k prev p (released x y z (w ∷ ws)) g) (release start k)
  by_cases P e build =
      Ensures-mono _ _ (release start k) (Ensures-all _ Outside (release start k) e outside)
        (λ _ g f. (build g f.0.2 f.1, f.0.0, f.0.1, λ i lt. f.1 (i, inl lt)))

  Chain-Neither :
      x.free ≡ false
      → z.free ≡ false
      → (g : Kheap) → Neither prev p next x y z w g
      → ((i : Far) → Outside i tt g)
      → Chain g.entries prev p (released x y z (w ∷ ws))
  unfolding released
  Chain-Neither u v g f e =
      subst (λ bs. Chain g.entries prev p bs) (λ i. coalesced (sym u i) (sym v i) x y z (w ∷ ws))
        (f.0, ch.1, ch.2, (f.1, ch.3.1, ch.3.2, (f.2, ch.3.3.1, ch.3.3.2, at_w g y_end f.3 e)))

  Chain-Before :
      x.free ≡ true
      → z.free ≡ false
      → (g : Kheap) → Before prev p next x y z w g
      → ((i : Far) → Outside i tt g)
      → Chain g.entries prev p (released x y z (w ∷ ws))
  unfolding released
  Chain-Before u v g f e =
      subst (λ bs. Chain g.entries prev p bs) (λ i. coalesced (sym u i) (sym v i) x y z (w ∷ ws))
        (
          ground (arith, f.0),
          ch.1,
          omega (arith, ch.3.2),
          subst (λ t. Chain g.entries p t (z ∷ w ∷ ws)) (omega arith)
              (f.1, ch.3.3.1, ch.3.3.2, at_w g y_end f.2 e),
        )

  Chain-After :
      x.free ≡ false
      → z.free ≡ true
      → (g : Kheap) → After prev p next x y z w g
      → ((i : Far) → Outside i tt g)
      → Chain g.entries prev p (released x y z (w ∷ ws))
  unfolding released
  Chain-After u v g f e =
      subst (λ bs. Chain g.entries prev p bs) (λ i. coalesced (sym u i) (sym v i) x y z (w ∷ ws))
        (
          f.0,
          ch.1,
          ch.2,
          (
            ground (arith, f.1),
            ch.3.1,
            omega (arith, ch.3.3.2),
            subst (λ t. Chain g.entries start t (w ∷ ws)) (omega arith) (at_w g start f.2 e),
          ),
        )

  Chain-Both :
      x.free ≡ true
      → z.free ≡ true
      → (g : Kheap) → Both prev p next x y z w g
      → ((i : Far) → Outside i tt g)
      → Chain g.entries prev p (released x y z (w ∷ ws))
  unfolding released
  Chain-Both u v g f e =
      subst (λ bs. Chain g.entries prev p bs) (λ i. coalesced (sym u i) (sym v i) x y z (w ∷ ws))
        (
          ground (arith, f.0),
          ch.1,
          omega (arith, ch.3.3.2),
          subst (λ t. Chain g.entries p t (w ∷ ws)) (omega arith) (at_w g p f.1 e),
        )

  release_here : Ensures (λ _ g. Freed k prev p (released x y z (w ∷ ws)) g) (release start k)
  release_here = elim (Bool-cases x.free) [
    | inl u ↦ elim (Bool-cases z.free) [
      | inl v ↦
          by_cases _ (release-Both k prev p next x y z w held full ch.1 (omega arith) four u v)
            (Chain-Both u v)
      | inr v ↦
          by_cases _ (release-Before k prev p next x y z w held full ch.1 (omega arith) four u v)
            (Chain-Before u v)
    ]
    | inr u ↦ elim (Bool-cases z.free) [
      | inl v ↦
          by_cases _ (release-After k prev p next x y z w held full ch.1 (omega arith) four u v)
            (Chain-After u v)
      | inr v ↦
          by_cases _ (release-Neither k prev p next x y z w held full ch.1 (omega arith) four u v)
            (Chain-Neither u v)
    ]
  ]

next_of-cons :
    (p : ℕ) (b : Block) (bs : List Block)
    → is_nil bs ≡ false
    → next_of p b bs ≡ p + (header_size + b.size)
next_of-cons p b [] full = cc
next_of-cons p b (c ∷ bs) full = refl

four_after :
    (xs : List Block) (x y z : Block) (ws : List Block)
    → (is_nil (xs ++ x ∷ y ∷ z ∷ ws) ≡ false) × (is_nil (xs ++ released x y z ws) ≡ false)
unfolding released
four_after [] x y z ws = (refl, ground arith)
four_after (b ∷ xs) x y z ws = (refl, refl)

release-released :
    (xs : List Block) (k : Kheap) (prev p ptr : ℕ) (x y z w : Block) (ws : List Block)
    → y.free ≡ false
    → 0 < y.size
    → Chain k.entries prev p (xs ++ x ∷ y ∷ z ∷ w ∷ ws)
    → ptr ≡ p + bytes xs + (header_size + x.size)
    → Ensures (λ _ g. Freed k prev p (xs ++ released x y z (w ∷ ws)) g) (release ptr k)
release-released [] k prev p ptr x y z w ws held full ch e =
    subst (λ t. Ensures (λ _ g. Freed k prev p (released x y z (w ∷ ws)) g) (release t k))
      (omega (arith, e)) (release_here k prev p x y z w ws held full ch)
release-released (b ∷ xs) k prev p ptr x y z w ws held full ch e =
    Ensures-mono _ _ (release ptr k)
      (release-released xs k p (p + (header_size + b.size)) ptr x y z w ws held full ch.3
        (omega (arith, e)))
      (λ _ g f. (
        (
          f.3 p (omega arith) ∙ ch.0 ∙ ap (λ t. some (entry_of b p prev t)) same_next,
          ch.1,
          ch.2,
          f.0,
        ),
        f.1,
        f.2,
        λ i lt. f.3 i (omega arith),
      ))
  where
    same_next : next_of p b (xs ++ x ∷ y ∷ z ∷ w ∷ ws) ≡ next_of p b (xs ++ released x y z (w ∷ ws))
    same_next =
        next_of-cons p b _ (four_after xs x y z (w ∷ ws)).0
        ∙ sym (next_of-cons p b _ (four_after xs x y z (w ∷ ws)).1)

-- The bytes of the heap are what they were: nothing is lost by merging.
bytes-released :
    (xs : List Block) (x y z : Block) (ws : List Block)
    → bytes (xs ++ released x y z ws) ≡ bytes (xs ++ x ∷ y ∷ z ∷ ws)
unfolding released
bytes-released [] x y z ws = ground arith
bytes-released (b ∷ xs) x y z ws = omega (arith, bytes-released xs x y z ws)

pub bytes_last :
    (xs : List Block) (x : Block) → bytes (xs ++ x ∷ []) ≡ bytes xs + (header_size + x.size)
bytes_last [] x = omega arith
bytes_last (b ∷ xs) x = omega (arith, bytes_last xs x)

Chain-pos :
    (h : ℕ → Option Entry) (prev p : ℕ) (bs : List Block)
    → Chain h prev p bs
    → is_nil bs ≡ false
    → 0 < p
Chain-pos h prev p [] ch full = cc
Chain-pos h prev p (b ∷ bs) ch full = ch.1

pub kfree_step :
    (k : Kheap) (ptr : ℕ)
    → k.locked ≡ false
    → header_size ≤ ptr
    → kfree ptr k ≡ release (ptr - header_size) (record k { locked = true })
unfolding kfree
kfree_step k ptr u big = let e : ltb ptr header_size ≡ false = ground arith in rw (u, e) refl

-- On a heap whose blocks are `xs`, then `x`, `y`, `z`, `w`, then `ws`, where `y` is in use and not
-- empty, kfree() of the memory of `y` marks `y` free and merges it with whichever of its neighbours
-- `x` and `z` is free; all other blocks stay, no byte of the heap is lost, and the mutex is free
-- again.
pub kfree-released :
    (k : Kheap) (xs : List Block) (x y z w : Block) (ws : List Block) (ptr : ℕ)
    → Holds k (xs ++ x ∷ y ∷ z ∷ w ∷ ws)
    → y.free ≡ false
    → 0 < y.size
    → ptr ≡ k.heap_start + bytes (xs ++ x ∷ []) + header_size
    → Ensures
        (λ _ g.
          Holds g (xs ++ released x y z (w ∷ ws))
          × (g.heap_start ≡ k.heap_start)
          × (bytes (xs ++ released x y z (w ∷ ws)) ≡ bytes (xs ++ x ∷ y ∷ z ∷ w ∷ ws)))
        (kfree ptr k)
kfree-released k xs x y z w ws ptr hk held full e =
    rw (kfree_step k ptr hk.unlocked (omega arith)) (
      Ensures-mono _ _ (release (ptr - header_size) (record k { locked = true }))
        (release-released xs (record k { locked = true }) 0 k.heap_start (ptr - header_size) x y z w
          ws held full hk.chain (omega (arith, e, bytes_last xs x)))
        (λ _ g f. (
          record {
            chain = rw f.1 f.0;
            unlocked = f.2;
            no_null =
                f.3 0 (Chain-pos _ 0 k.heap_start _ hk.chain (four_after xs x y z (w ∷ ws)).0)
                ∙ hk.no_null;
            some_block = (four_after xs x y z (w ∷ ws)).1;
          },
          f.1,
          bytes-released xs x y z (w ∷ ws),
        )))
