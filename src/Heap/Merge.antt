-- ===== src/Heap/Merge.antt =====
-- kernel/memory/kfree.c: what merge_entries() writes.
use ulmix_i.Base.{ℕ, ◌+◌, ◌<◌, ◌≡◌, ◌≢◌, true, Option, some, arith}
use ulmix_i.Base.Bits.{u32, sub32}
use ulmix_i.Heap.{Entry, Kheap, done, header_size, update, merge_entries}

-- The first header once it takes the place of both.
abbrev pub merged_entry : ℕ → Entry → Entry → Entry
merged_entry p f s = record f {
  next = s.next;
  start = p + header_size;
  size = sub32 (u32 (s.start + s.size)) (p + header_size);
}

abbrev pub merged_entries : (ℕ → Option Entry) → ℕ → Entry → Entry → Entry → ℕ → Option Entry
merged_entries h p f s n =
    update
      (update (update h p (record f { next = s.next; start = p + header_size })) s.next
        (record n { previous = p }))
      p (merged_entry p f s)

pub merge_entries-eq :
    (k : Kheap) (p q : ℕ) (f s n : Entry)
    → k.entries p ≡ some f
    → k.entries q ≡ some s
    → k.entries s.next ≡ some n
    → f.available ≡ true
    → s.available ≡ true
    → s.previous ≡ p
    → p < q
    → p ≢ s.next
    → merge_entries p q k ≡ done p (record k { entries = merged_entries k.entries p f s n })
unfolding merge_entries
merge_entries-eq k p q f s n hf hs hn af as' prev lt ne = ground arith
