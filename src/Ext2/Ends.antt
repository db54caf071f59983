-- ===== src/Ext2/Ends.antt =====
-- kernel/fs/ext2.c: when the loop of ext2_get_direntries() ends.
use ulmix_i.Base.{
  ℕ, zero, suc, ◌+◌, ◌*◌, ◌%◌, ◌<◌, ◌≤◌, ◌≡◌, ◌≢◌, ◌⊎◌, inl, inr, refl, ap, Bool, true, false, not,
  ◌&&◌, List, [], arith, ltb, ◌==◌, if◌then◌else◌, Bool-cases,
}
use ulmix_i.Base.Memory.{Mem}
use ulmix_i.Vfs.{Direntry}
use ulmix_i.Ext2.{
  Read, Ext2Fs, Inode, DirRecord, read_record, Fetched, fetched, refused, undefined, fetch_inode,
  Store, Memory, name_of, place, Listed, listed, asserted, wild, out_of_fuel, cons_listed,
  next_record, entry_of, add_entry, entries_loop,
}

cons_listed-out_of_fuel :
    (e : Direntry) (r : Listed) → cons_listed e r ≡ out_of_fuel → r ≡ out_of_fuel
cons_listed-out_of_fuel e (listed es store) q = cc
cons_listed-out_of_fuel e asserted q = cc
cons_listed-out_of_fuel e wild q = cc
cons_listed-out_of_fuel e out_of_fuel q = refl

add_entry-out_of_fuel :
    (f : Fetched) (r : DirRecord) (name : List ℕ) (d : ℕ) (rest : Listed)
    → add_entry f r name d rest ≡ out_of_fuel
    → rest ≡ out_of_fuel
unfolding add_entry
add_entry-out_of_fuel (fetched i) r name d rest q =
    cons_listed-out_of_fuel (entry_of i r name d) rest q
add_entry-out_of_fuel (refused s) r name d rest q = cc
add_entry-out_of_fuel undefined r name d rest q = cc

next_record_grows :
    (i rec_len : ℕ)
    → i % 4 ≡ 0
    → rec_len ≢ 0
    → (i + 4 ≤ next_record i rec_len) × (next_record i rec_len % 4 ≡ 0)
unfolding next_record
next_record_grows i rec_len al ne = (ground arith, ground arith)

-- A round of the loop that finds a record and has to go on.
loop_goes_on :
    (fuel : ℕ) (read : Read) (memory : Memory) (fs : Ext2Fs) (dir : ℕ) (buf : Mem) (i k : ℕ)
    (store : Store)
    → entries_loop (suc fuel) read memory fs dir buf i k store ≡ out_of_fuel
    → (i < fs.block_size)
      × (entries_loop fuel read memory fs dir buf
            (next_record i (read_record buf i).rec_len)
            (k + 1)
            (place memory k dir (read_record buf i) store).2
          ≡ out_of_fuel)
unfolding entries_loop
loop_goes_on fuel read memory fs dir buf i k store q = elim (Bool-cases (ltb i fs.block_size)) [
  | inr t ↦ absurd (no_end (rw t at q))
  | inl t ↦ (
    ground (arith, t),
    later (not (place memory k dir (read_record buf i) store).1 && not (memory.payload k == 0))
        (rw t at q),
  )
]
  where
    no_end : listed [] store ≡ out_of_fuel → ⊥
    no_end e = cc

    later :
        (b : Bool)
        → (if b
            then wild
            else add_entry
                (fetch_inode read (read_record buf i).inode fs memory.garbage)
                (read_record buf i)
                (name_of (read_record buf i).name_len buf (i + 8))
                (place memory k dir (read_record buf i) store).0
                (entries_loop fuel read memory fs dir buf
                  (next_record i (read_record buf i).rec_len)
                  (k + 1)
                  (place memory k dir (read_record buf i) store).2))
          ≡ out_of_fuel
        → entries_loop fuel read memory fs dir buf
            (next_record i (read_record buf i).rec_len)
            (k + 1)
            (place memory k dir (read_record buf i) store).2
          ≡ out_of_fuel
    later true e = cc
    later false e =
        add_entry-out_of_fuel (fetch_inode read (read_record buf i).inode fs memory.garbage)
          (read_record buf i) (name_of (read_record buf i).name_len buf (i + 8))
          (place memory k dir (read_record buf i) store).0 _ e

-- The offsets at which the loop reads a record when it begins at one of them: the rounds go on from an offset in the
-- block to the next record's.
pub data Reached (buf : Mem) (block_size : ℕ) : (i j : ℕ) → Type 0 where
  here : {i : ℕ} → Reached buf block_size i i
  next :
      {i j : ℕ}
      → i < block_size
      → Reached buf block_size (next_record i (read_record buf i).rec_len) j
      → Reached buf block_size i j

pub Reached_cases :
    {buf : Mem} {block_size i j : ℕ}
    → Reached buf block_size i j
    → (j ≡ i)
      ⊎ ((i < block_size) × Reached buf block_size (next_record i (read_record buf i).rec_len) j)
Reached_cases here = inl refl
Reached_cases (next lt r) = inr (lt, r)

-- The loop over a block ends, however the block is laid out and whatever its inodes are, when none of the records
-- that it reads has length 0: a round for each 4 bytes, and one more, are enough.
pub entries_loop_ends :
    (fuel : ℕ) (read : Read) (memory : Memory) (fs : Ext2Fs) (dir : ℕ) (buf : Mem) (i k : ℕ)
    (store : Store)
    → ((j : ℕ)
        → Reached buf fs.block_size i j
        → j < fs.block_size
        → (read_record buf j).rec_len ≢ 0)
    → i % 4 ≡ 0
    → fs.block_size ≤ i + 4 * fuel
    → entries_loop (suc fuel) read memory fs dir buf i k store ≢ out_of_fuel
entries_loop_ends zero read memory fs dir buf i k store ne al enough q =
    absurd (omega (arith, (loop_goes_on zero read memory fs dir buf i k store q).0))
entries_loop_ends (suc fuel) read memory fs dir buf i k store ne al enough q =
    let (lt, q') = loop_goes_on (suc fuel) read memory fs dir buf i k store q in
    let (grows, al') = next_record_grows i (read_record buf i).rec_len al (ne i here lt) in
    entries_loop_ends fuel read memory fs dir buf (next_record i (read_record buf i).rec_len)
      (k + 1) (place memory k dir (read_record buf i) store).2 (λ j r. ne j (next lt r)) al'
      (omega arith) q'

place_file :
    (memory : Memory) (k dir : ℕ) (r : DirRecord) (store : Store)
    → r.file_type ≢ 2
    → place memory k dir r store ≡ (0, false, store)
unfolding place
place_file memory k dir r store file = ground arith

next_record_zero : (i rec_len : ℕ) → i % 4 ≡ 0 → rec_len ≡ 0 → next_record i rec_len ≡ i
unfolding next_record
next_record_zero i rec_len al z = ground arith

null_payload :
    (memory : Memory) (k : ℕ) (b : Bool)
    → memory.payload k ≡ 0
    → (not b && not (memory.payload k == 0)) ≡ false
null_payload memory k true z = refl
null_payload memory k false z = ground arith

-- A record of length 0, of a file that is no directory and whose inode can be fetched, makes the loop go
-- round for ever: no fuel is enough.
entries_loop_endless :
    (fuel : ℕ) (read : Read) (memory : Memory) (fs : Ext2Fs) (dir : ℕ) (buf : Mem) (i k : ℕ)
    (store : Store) (inode : Inode)
    → i < fs.block_size
    → i % 4 ≡ 0
    → (read_record buf i).rec_len ≡ 0
    → (read_record buf i).file_type ≢ 2
    → ((j : ℕ) → memory.payload j ≡ 0)
    → fetch_inode read (read_record buf i).inode fs memory.garbage ≡ fetched inode
    → entries_loop fuel read memory fs dir buf i k store ≡ out_of_fuel
unfolding entries_loop
entries_loop_endless zero read memory fs dir buf i k store inode lt al z file null f = refl
entries_loop_endless (suc fuel) read memory fs dir buf i k store inode lt al z file null f = rw (
  inside,
  quiet,
  f,
  stays,
  same,
  entries_loop_endless fuel read memory fs dir buf i (k + 1) store inode lt al z file null f,
  entries_loop,
  add_entry,
)
  where
    inside : ltb i fs.block_size ≡ true
    inside = ground arith

    quiet :
        (not (place memory k dir (read_record buf i) store).1 && not (memory.payload k == 0))
        ≡ false
    quiet = null_payload memory k _ (null k)

    stays : next_record i (read_record buf i).rec_len ≡ i
    stays = next_record_zero i _ al z

    same : (place memory k dir (read_record buf i) store).2 ≡ store
    same =
        ap (λ (p : ℕ × Bool × Store). p.2) (place_file memory k dir (read_record buf i) store file)
