-- ===== src/Heap/Free.antt =====
-- kernel/memory/kfree.c: release of a block, and merging with its free neighbours.
use ulmix_i.Base.{
  ℕ, ◌+◌, ◌^◌, ◌<◌, ◌≡◌, ◌≢◌, inl, inr, Bool, true, false, some, List, ◌∷◌, arith, Bool-cases,
}
use ulmix_i.Heap.{Entry, update, Kheap, Outcome, header_size, release}
use ulmix_i.Heap.Blocks.{Block, entry_of}
use ulmix_i.Heap.Merge.{merge_entries-eq, merged_entry, merged_entries}
use ulmix_i.Heap.Ensures.{Ensures}

-- A block given back, and two adjacent blocks made one.
abbrev pub given_back : Block → Block
given_back y = record { free = true; size = y.size; description = 0 }

abbrev pub join : Block → Block → Block
join x y = record x { size = x.size + (header_size + y.size) }

-- Whether `x` and `z` are free decides what is joined to `y`.
abbrev pub coalesced : Bool → Bool → Block → Block → Block → List Block → List Block
coalesced true true x y z ws = join (join x (given_back y)) z ∷ ws
coalesced true false x y z ws = join x (given_back y) ∷ z ∷ ws
coalesced false true x y z ws = x ∷ join (given_back y) z ∷ ws
coalesced false false x y z ws = x ∷ given_back y ∷ z ∷ ws

-- What kfree() of `y` makes of `x`, `y`, `z` and the blocks after them.
unfoldable pub released : Block → Block → Block → List Block → List Block
released x y z ws = coalesced x.free z.free x y z ws

module _ (prev p next : ℕ) (x y z w : Block) where
  abbrev pub q : ℕ
  q = p + (header_size + x.size)

  abbrev pub r : ℕ
  r = q + (header_size + y.size)

  abbrev pub s : ℕ
  s = r + (header_size + z.size)

  -- The headers of four adjacent blocks.
  pub record Four (k : Kheap) : Type 0 where
    pub hx : k.entries p ≡ some (entry_of x p prev q)
    pub hy : k.entries q ≡ some (entry_of y q p r)
    pub hz : k.entries r ≡ some (entry_of z r q s)
    pub hw : k.entries s ≡ some (entry_of w s r next)

  -- The headers that are left when neither, one or both of `x` and `z` are free.
  abbrev pub Neither : Kheap → Type 0
  Neither g =
      (g.entries p ≡ some (entry_of x p prev q))
      × (g.entries q ≡ some (entry_of (given_back y) q p r))
      × (g.entries r ≡ some (entry_of z r q s))
      × (g.entries s ≡ some (entry_of w s r next))

  abbrev pub Before : Kheap → Type 0
  Before g =
      (g.entries p ≡ some (entry_of (join x (given_back y)) p prev r))
      × (g.entries r ≡ some (entry_of z r p s))
      × (g.entries s ≡ some (entry_of w s r next))

  abbrev pub After : Kheap → Type 0
  After g =
      (g.entries p ≡ some (entry_of x p prev q))
      × (g.entries q ≡ some (entry_of (join (given_back y) z) q p s))
      × (g.entries s ≡ some (entry_of w s q next))

  abbrev pub Both : Kheap → Type 0
  Both g =
      (g.entries p ≡ some (entry_of (join (join x (given_back y)) z) p prev s))
      × (g.entries s ≡ some (entry_of w s p next))

module _ (k : Kheap) (prev p next : ℕ) (x y z w : Block) (held : y.free ≡ false) (full : 0 < y.size)
    (pos : 0 < p) (end : s prev p next x y z w < 2 ^ 32) (four : Four prev p next x y z w k) where
  abbrev marked : Entry
  marked = entry_of (given_back y) (p + (header_size + x.size)) p (r prev p next x y z w)

  -- The heap once `y` is marked free, and once it is merged with `x`.
  abbrev heap_marked : Kheap
  heap_marked = record k { entries = update k.entries (q prev p next x y z w) marked }

  abbrev x_entry : Entry
  x_entry = entry_of x p prev (q prev p next x y z w)

  abbrev z_entry : Entry
  z_entry = entry_of z (r prev p next x y z w) (q prev p next x y z w) (s prev p next x y z w)

  abbrev w_entry : Entry
  w_entry = entry_of w (s prev p next x y z w) (r prev p next x y z w) next

  abbrev heap_before : Kheap
  heap_before = record heap_marked {
    entries = merged_entries heap_marked.entries p x_entry marked z_entry;
  }

  abbrev pub freeing : Outcome (Unit {0})
  freeing = release (p + (header_size + x.size)) k

  abbrev pub Leaves : (Kheap → Type 0) → Type 0
  Leaves P = Ensures (λ _ g. (g.heap_start ≡ k.heap_start) × (g.locked ≡ false) × P g) freeing

  pub release-Neither : x.free ≡ false → z.free ≡ false → Leaves (Neither prev p next x y z w)
  unfolding release
  release-Neither u v = ground arith

  pub release-Before : x.free ≡ true → z.free ≡ false → Leaves (Before prev p next x y z w)
  unfolding release
  release-Before u v =
      ground (arith, merge_entries-eq heap_marked p (q prev p next x y z w) x_entry marked z_entry)

  pub release-After : x.free ≡ false → z.free ≡ true → Leaves (After prev p next x y z w)
  unfolding release
  release-After u v = ground (
    arith,
    merge_entries-eq heap_marked (q prev p next x y z w) (r prev p next x y z w) marked z_entry
        w_entry,
  )

  pub release-Both : x.free ≡ true → z.free ≡ true → Leaves (Both prev p next x y z w)
  unfolding release
  release-Both u v = ground (
    arith,
    merge_entries-eq heap_marked p (q prev p next x y z w) x_entry marked z_entry,
    merge_entries-eq heap_before p (r prev p next x y z w) (merged_entry p x_entry marked)
        (record z_entry { previous = p }) w_entry,
  )

  module _ (a : ℕ) (np : a ≢ p) (nq : a ≢ q prev p next x y z w) (nr : a ≢ r prev p next x y z w)
      (ns : a ≢ s prev p next x y z w) where
    abbrev pub Same : Type 0
    Same = Ensures (λ _ g. g.entries a ≡ k.entries a) freeing

    same_neither : x.free ≡ false → z.free ≡ false → Same
    unfolding release
    same_neither u v = ground arith

    same_before : x.free ≡ true → z.free ≡ false → Same
    unfolding release
    same_before u v =
        ground
          (arith, merge_entries-eq heap_marked p (q prev p next x y z w) x_entry marked z_entry)

    same_after : x.free ≡ false → z.free ≡ true → Same
    unfolding release
    same_after u v = ground (
      arith,
      merge_entries-eq heap_marked (q prev p next x y z w) (r prev p next x y z w) marked z_entry
          w_entry,
    )

    same_both : x.free ≡ true → z.free ≡ true → Same
    unfolding release
    same_both u v = ground (
      arith,
      merge_entries-eq heap_marked p (q prev p next x y z w) x_entry marked z_entry,
      merge_entries-eq heap_before p (r prev p next x y z w) (merged_entry p x_entry marked)
          (record z_entry { previous = p }) w_entry,
    )

    pub release_same : Same
    release_same = elim (Bool-cases x.free) [
      | inl u ↦ elim (Bool-cases z.free) [ inl v ↦ same_both u v | inr v ↦ same_before u v ]
      | inr u ↦ elim (Bool-cases z.free) [ inl v ↦ same_after u v | inr v ↦ same_neither u v ]
    ]
