-- ===== src/Memscan/Regions.antt =====
-- arch/i686/memory.c: memscan() on the map of a boot loader.
use mathlib.Core.Path.{subst}
use ulmix_i.Base.{
  ℕ, zero, suc, ◌+◌, ◌-◌, ◌*◌, ◌/◌, ◌%◌, ◌^◌, ◌<◌, ◌≤◌, ◌≡◌, ◌∙◌, refl, ap, Bool, true, false, not,
  ◌&&◌, Option, some, List, [], ◌∷◌, arith, ltb, leb, ◌==◌, if◌then◌else◌, length, map,
}
use ulmix_i.Base.Bits.{u32}
use ulmix_i.Base.Memory.{Mem}
use ulmix_i.Devices.{le32}
use ulmix_i.Memscan.{gb4, le64, write64, reaches, memscan_loop, memscan}

pub record Entry : Type 0 where
  pub entry_size : ℕ
  pub base_addr : ℕ
  pub size : ℕ

-- A region that is not empty, begins at 0xffffffff or below, and reaches this address, in 64 bits.
abbrev pub crosses : Entry → Bool
crosses e =
    not (ltb 0xffffffff e.base_addr)
    && (not (e.size == 0) && leb 0xffffffff ((e.base_addr + e.size) % 2 ^ 64))

-- The entry as it is in the map after the scan.
abbrev pub clipped : Entry → Entry
clipped e = record e { size = if crosses e then 0xffffffff - e.base_addr else e.size }

reaches-crosses : (e : Entry) → reaches e.base_addr e.size ≡ crosses e
unfolding reaches
reaches-crosses e = ground arith

-- The entries stand in memory from `p` on, each with room for its two numbers.
abbrev pub Laid : Mem → (p : ℕ) → List Entry → Type 0
Laid m p [] = Unit {0}
Laid m p (e ∷ es) =
    (le32 m p ≡ e.entry_size)
    × (le64 m (p + 4) ≡ e.base_addr)
    × (le64 m (p + 12) ≡ e.size)
    × (16 ≤ e.entry_size)
    × Laid m (p + e.entry_size + 4) es

abbrev pub bytes_of : List Entry → ℕ
bytes_of [] = 0
bytes_of (e ∷ es) = e.entry_size + 4 + bytes_of es

abbrev pub total : List Entry → ℕ
total [] = 0
total (e ∷ es) = e.size + total es

le32-frame :
    (m m' : Mem) (a : ℕ) → ((b : ℕ) → a ≤ b → b < a + 4 → m' b ≡ m b) → le32 m' a ≡ le32 m a
le32-frame m m' a same = omega (
  arith,
  same a (omega arith) (omega arith),
  same (a + 1) (omega arith) (omega arith),
  same (a + 2) (omega arith) (omega arith),
  same (a + 3) (omega arith) (omega arith),
)

le64-frame :
    (m m' : Mem) (a : ℕ) → ((b : ℕ) → a ≤ b → b < a + 8 → m' b ≡ m b) → le64 m' a ≡ le64 m a
le64-frame m m' a same = omega (
  arith,
  le32-frame m m' a (λ b lo hi. same b lo (omega arith)),
  le32-frame m m' (a + 4) (λ b lo hi. same b (omega arith) (omega arith)),
)

write64-outside : (m : Mem) (a v b : ℕ) → (leb a b && ltb b (a + 8)) ≡ false → write64 m a v b ≡ m b
unfolding write64
write64-outside m a v b h = rw (h, write64) refl

write64-byte :
    (m : Mem) (a v i b : ℕ) → b ≡ a + i → i < 8 → write64 m a v b ≡ v / 2 ^ (8 * i) % 2 ^ 8
unfolding write64
write64-byte m a v i b e lt =
    rw (inside, write64) (ap (λ n. v / 2 ^ (8 * n) % 2 ^ 8) {x = b - a} {y = i} (omega arith))
  where
    inside : (leb a b && ltb b (a + 8)) ≡ true
    inside = ground arith

le64-write64 : (m : Mem) (a v : ℕ) → v < 2 ^ 32 → le64 (write64 m a v) a ≡ v
le64-write64 m a v lt = omega (
  arith,
  write64-byte m a v 0 a (omega arith) (omega arith),
  write64-byte m a v 1 (a + 1) refl (omega arith),
  write64-byte m a v 2 (a + 2) refl (omega arith),
  write64-byte m a v 3 (a + 3) refl (omega arith),
  write64-byte m a v 4 (a + 4) refl (omega arith),
  write64-byte m a v 5 (a + 4 + 1) (omega arith) (omega arith),
  write64-byte m a v 6 (a + 4 + 2) (omega arith) (omega arith),
  write64-byte m a v 7 (a + 4 + 3) (omega arith) (omega arith),
)

Laid-frame :
    (es : List Entry) (m m' : Mem) (p : ℕ)
    → Laid m p es
    → ((b : ℕ) → p ≤ b → m' b ≡ m b)
    → Laid m' p es
Laid-frame [] m m' p laid same = tt
Laid-frame (e ∷ es) m m' p (front, base, size, room, rest) same = (
  le32-frame m m' p (λ b lo hi. same b lo) ∙ front,
  le64-frame m m' (p + 4) (λ b lo hi. same b (omega arith)) ∙ base,
  le64-frame m m' (p + 12) (λ b lo hi. same b (omega arith)) ∙ size,
  room,
  Laid-frame es m m' (p + e.entry_size + 4) rest (λ b lo. same b (omega arith)),
)

-- The memory behind the visit of the entry at `p`.
abbrev visited : Mem → (p : ℕ) → Entry → Mem
visited m p e = if crosses e then write64 m (p + 12) (gb4 - e.base_addr) else m

visited-outside :
    (m : Mem) (p : ℕ) (e : Entry) (b : ℕ)
    → (leb (p + 12) b && ltb b (p + 12 + 8)) ≡ false
    → visited m p e b ≡ m b
visited-outside m p e b out = go (crosses e)
  where
    go : (c : Bool) → (if c then write64 m (p + 12) (gb4 - e.base_addr) else m) b ≡ m b
    go true = write64-outside m (p + 12) (gb4 - e.base_addr) b out
    go false = refl

visited-Laid :
    (m : Mem) (p : ℕ) (e : Entry) (es : List Entry)
    → Laid m p (e ∷ es)
    → Laid (visited m p e) p (clipped e ∷ es)
visited-Laid m p e es (front, base, size, room, rest) = (
  le32-frame m (visited m p e) p (λ b lo hi. visited-outside m p e b (ground arith)) ∙ front,
  le64-frame m (visited m p e) (p + 4) (λ b lo hi. visited-outside m p e b (ground arith)) ∙ base,
  go (crosses e),
  room,
  Laid-frame es m (visited m p e) (p + e.entry_size + 4) rest
      (λ b lo. visited-outside m p e b (ground arith)),
)
  where
    go :
        (c : Bool)
        → le64 (if c then write64 m (p + 12) (gb4 - e.base_addr) else m) (p + 12)
          ≡ (if c then gb4 - e.base_addr else e.size)
    go true = le64-write64 m (p + 12) (gb4 - e.base_addr) (omega arith)
    go false = size

-- A round of the loop.
memscan_loop_step :
    (fuel : ℕ) (m : Mem) (p end size : ℕ) (e : Entry) (es : List Entry)
    → Laid m p (e ∷ es)
    → p < end
    → p + e.entry_size + 4 < 2 ^ 32
    → memscan_loop (suc fuel) m p end size
      ≡ memscan_loop fuel (visited m p e) (p + e.entry_size + 4) end (u32 (size + (clipped e).size))
unfolding memscan_loop
memscan_loop_step fuel m p end size e es laid lt low =
    rw (laid.1, laid.2, below, reaches-crosses e, memscan_loop)
      (ap
          (λ n.
            memscan_loop fuel (visited m p e) (u32 (p + n + 4)) end
              (u32 (size + le64 (visited m p e) (p + 12))))
          after.0
        ∙ ap
            (λ n.
              memscan_loop fuel (visited m p e) n end (u32 (size + le64 (visited m p e) (p + 12))))
            {y = p + e.entry_size + 4} (omega arith)
        ∙ ap (λ n. memscan_loop fuel (visited m p e) (p + e.entry_size + 4) end (u32 (size + n)))
            after.2)
  where
    below : ltb p end ≡ true
    below = ground arith

    after : Laid (visited m p e) p (clipped e ∷ es)
    after = visited-Laid m p e es laid

-- What the loop leaves: the sum, and the map with its regions cut; memory in front of `p` stays.
abbrev pub Scanned : Mem → (p size : ℕ) → List Entry → Option (ℕ × Mem) → Type 0
Scanned m p size es r =
    (m' : Mem) × (r ≡ some ((size + total (map clipped es)) % 2 ^ 32, m'))
    × Laid m' p (map clipped es)
    × ((b : ℕ) → b < p → m' b ≡ m b)

memscan_loop-Scanned :
    (es : List Entry) (fuel : ℕ) (m : Mem) (p size : ℕ)
    → Laid m p es
    → p + bytes_of es < 2 ^ 32
    → length es < fuel
    → size < 2 ^ 32
    → Scanned m p size es (memscan_loop fuel m p (p + bytes_of es) size)
unfolding memscan_loop
memscan_loop-Scanned es zero m p size laid low enough small = absurd (omega arith)
memscan_loop-Scanned [] (suc fuel) m p size laid low enough small = (
  m,
  rw (at_end, memscan_loop) (ap (λ n. some (n, m)) {x = size} (omega arith)),
  tt,
  λ b lt. refl,
)
  where
    at_end : ltb p (p + 0) ≡ false
    at_end = ground arith
memscan_loop-Scanned (e ∷ es) (suc fuel) m p size laid low enough small = go (
    memscan_loop-Scanned es fuel (visited m p e) (p + e.entry_size + 4)
      (u32 (size + (clipped e).size)) after.4 (omega arith) (omega arith) (omega arith))
  where
    after : Laid (visited m p e) p (clipped e ∷ es)
    after = visited-Laid m p e es laid

    go :
        Scanned (visited m p e) (p + e.entry_size + 4) (u32 (size + (clipped e).size)) es (
          memscan_loop fuel
            (visited m p e)
            (p + e.entry_size + 4)
            (p + e.entry_size + 4 + bytes_of es)
            (u32 (size + (clipped e).size)))
        → Scanned m p size (e ∷ es) (memscan_loop (suc fuel) m p (p + bytes_of (e ∷ es)) size)
    go (m', result, laid', kept) = (
      m',
      memscan_loop_step fuel m p (p + bytes_of (e ∷ es)) size e es laid (omega arith) (omega arith)
          ∙ ap
              (λ end.
                memscan_loop fuel (visited m p e) (p + e.entry_size + 4) end
                  (u32 (size + (clipped e).size)))
              {y = p + e.entry_size + 4 + bytes_of es} (omega arith)
          ∙ result
          ∙ ap (λ n. some (n, m')) (omega arith),
      (
        le32-frame (visited m p e) m' p (λ b lo hi. kept b (omega (arith, laid.3))) ∙ after.0,
        le64-frame (visited m p e) m' (p + 4) (λ b lo hi. kept b (omega (arith, laid.3))) ∙ after.1,
        le64-frame (visited m p e) m' (p + 12) (λ b lo hi. kept b (omega (arith, laid.3)))
            ∙ after.2,
        laid.3,
        laid',
      ),
      λ b lt. kept b (omega arith) ∙ visited-outside m p e b (ground arith),
    )

-- memscan() on a map whose entries stand one behind the other, each with room for its two
-- numbers, and ends below 2 ^ 32: with a round for each entry and one more, it gives the sum of the sizes
-- modulo 2 ^ 32, whatever the type of a region. In 64 bits, a region from 0xffffffff or below that reaches this address counts
-- up to it only, and is so cut in the map; every other region, those above 4 GB included, counts as it
-- is. Memory in front of the map stays.
pub memscan-total :
    (es : List Entry) (fuel : ℕ) (m : Mem) (mmap : ℕ)
    → Laid m mmap es
    → mmap + bytes_of es < 2 ^ 32
    → length es < fuel
    → Scanned m mmap 0 es (memscan fuel m mmap (bytes_of es))
unfolding memscan
memscan-total es fuel m mmap laid low enough =
    subst (λ end. Scanned m mmap 0 es (memscan_loop fuel m mmap end 0)) {x = mmap + bytes_of es}
      (omega arith) (memscan_loop-Scanned es fuel m mmap 0 laid low enough (omega arith))
