-- ===== src/Heap/Blocks.antt =====
-- The heap of kernel/memory as a list of blocks: what the chain of headers stands for, and what
-- allocation and release do to the list.
use ulmix_i.Base.{
  ℕ, ◌+◌, ◌-◌, ◌*◌, ◌^◌, ◌<◌, ◌≡◌, Bool, true, false, ◌&&◌, Option, none, some, List, [], ◌∷◌, ltb,
  leb, if◌then◌else◌,
}
use ulmix_i.Heap.{Entry, Kheap, header_size}

pub record Block : Type 0 where
  pub free : Bool
  pub size : ℕ
  pub description : ℕ

-- The header behind block `b` at `p`; the blocks `bs` follow.
abbrev pub next_of : ℕ → Block → List Block → ℕ
next_of p b [] = 0
next_of p b (c ∷ bs) = p + (header_size + b.size)

abbrev pub entry_of : Block → ℕ → ℕ → ℕ → Entry
entry_of b p prev next = record {
  available = b.free;
  size = b.size;
  start = p + header_size;
  next = next;
  previous = prev;
  description = b.description;
}

-- From `p` the headers lead through adjacent blocks that end below 4 GB; `prev` is in front.
abbrev pub Chain : (ℕ → Option Entry) → ℕ → ℕ → List Block → Type 0
Chain h prev p [] = Unit {0}
Chain h prev p (b ∷ bs) =
    (h p ≡ some (entry_of b p prev (next_of p b bs)))
    × (0 < p)
    × (p + (header_size + b.size) < 2 ^ 32)
    × Chain h p (p + (header_size + b.size)) bs

abbrev pub is_nil : List Block → Bool
is_nil [] = true
is_nil (b ∷ bs) = false

-- The heap holds exactly the blocks `bs`, in order; the mutex is free.
pub record Holds (k : Kheap) (bs : List Block) : Type 0 where
  pub chain : Chain k.entries 0 k.heap_start bs
  pub unlocked : k.locked ≡ false
  pub no_null : k.entries 0 ≡ none
  pub some_block : is_nil bs ≡ false

-- The bytes that the blocks take, headers included.
abbrev pub bytes : List Block → ℕ
bytes [] = 0
bytes (b ∷ bs) = (header_size + b.size) + bytes bs

-- What is left of a block of which `n` bytes are taken.
abbrev pub carve : ℕ → ℕ → Block → List Block → List Block
carve n d b bs =
    if ltb (4 * header_size) (b.size - n)
    then record { free = false; size = n; description = d }
      ∷ record { free = true; size = b.size - n - header_size; description = 0 }
      ∷ bs
    else record { free = false; size = b.size; description = d } ∷ bs

abbrev pub behind : Block → Option (ℕ × List Block) → Option (ℕ × List Block)
behind c none = none
behind c (some (a, cs)) = some (a, c ∷ cs)

-- The first free block that holds `n` bytes is carved. The list starts at address `p`.
unfoldable pub first_fit : ℕ → ℕ → ℕ → List Block → Option (ℕ × List Block)
first_fit n d p [] = none
first_fit n d p (b ∷ bs) =
    let rest = first_fit n d (p + (header_size + b.size)) bs in
    if b.free && leb n b.size then some (p + header_size, carve n d b bs) else behind b rest
