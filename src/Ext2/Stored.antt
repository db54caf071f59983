-- ===== src/Ext2/Stored.antt =====
-- kernel/fs/ext2.c: directories as they stand on the disk, and what list_block() makes of them.
use mathlib.Core.Path.{subst}
use ulmix_i.Base.{
  ℕ, ◌+◌, ◌*◌, ◌/◌, ◌%◌, ◌^◌, ◌<◌, ◌≤◌, ◌≡◌, ◌∙◌, refl, ap, false, ◌&&◌, List, [], ◌∷◌, arith, ltb,
  length,
}
use ulmix_i.Base.Bits.{u32}
use ulmix_i.Base.Int.{pos}
use ulmix_i.Base.Memory.{Mem, Holds}
use ulmix_i.Vfs.{Direntry, Dir, update}
use ulmix_i.Ext2.{
  Read, hdd_read, Ext2Fs, Inode, read_inode, Store, Memory, entries_loop, Result, returned,
  list_block,
}
use ulmix_i.Ext2.Inodes.{Reads, succeeds, HasInode, inode_place, fetch_inode-inode_place}
use ulmix_i.Ext2.Entries.{
  Item, encode, LaidOut, entries_of, Fetches, Fresh, Knows, Lists, entries_loop-Lists,
}

-- The same entries, in a buffer and on the disk.
Holds-moved :
    (xs : List ℕ) (disk buf : Mem) (p a n : ℕ)
    → ((j : ℕ) → j < n → buf j ≡ disk (p + j))
    → a + length xs ≤ n
    → Holds disk (p + a) xs
    → Holds buf a xs
Holds-moved [] disk buf p a n same fits h = tt
Holds-moved (x ∷ xs) disk buf p a n same fits h = (
  same a (omega arith) ∙ h.0,
  Holds-moved xs disk buf p (a + 1) n same (omega arith)
      (subst (λ b. Holds disk b xs) {x = p + a + 1} (omega arith) h.1),
)

-- The entries stand one behind the other on the disk, in the block at `p`.
abbrev pub Stored : (block_size : ℕ) → (disk : Mem) → (p i : ℕ) → List Item → Type 0
Stored block_size disk p i [] = i ≡ block_size
Stored block_size disk p i (it ∷ its) =
    Holds disk (p + i) (encode it)
    × (8 + length it.name ≤ it.rec_len)
    × (it.rec_len % 4 ≡ 0)
    × (i + it.rec_len ≤ block_size)
    × Stored block_size disk p (i + it.rec_len) its

length-encode : (it : Item) → length (encode it) ≡ 8 + length it.name
length-encode it = omega arith

Stored-LaidOut :
    (its : List Item) (n : ℕ) (disk buf : Mem) (p i : ℕ)
    → ((j : ℕ) → j < n → buf j ≡ disk (p + j))
    → Stored n disk p i its
    → LaidOut n buf i its
Stored-LaidOut [] n disk buf p i same s = s
Stored-LaidOut (it ∷ its) n disk buf p i same (h, room, al, fits, s) = (
  Holds-moved (encode it) disk buf p i n same (omega (arith, length-encode it)) h,
  room,
  al,
  fits,
  Stored-LaidOut its n disk buf p (i + it.rec_len) same s,
)

-- The filesystem has the inode of every entry.
abbrev pub HasInodes : Ext2Fs → List Item → Type 0
HasInodes fs [] = Unit {0}
HasInodes fs (it ∷ its) = HasInode fs it.inode × HasInodes fs its

abbrev pub inode_on : (disk : Mem) → Ext2Fs → ℕ → Inode
inode_on disk fs n = read_inode disk (inode_place fs n)

HasInodes-Fetches :
    (read : Read) (disk : Mem) (memory : Memory) (fs : Ext2Fs) (its : List Item)
    → Reads read disk
    → HasInodes fs its
    → Fetches read memory fs (inode_on disk fs) its
HasInodes-Fetches read disk memory fs [] r h = tt
HasInodes-Fetches read disk memory fs (it ∷ its) r (h, hs) = (
  fetch_inode-inode_place read disk fs it.inode memory.garbage r h,
  HasInodes-Fetches read disk memory fs its r hs,
)

-- Where the first block of inode `n` stands on the disk.
abbrev pub first_block : (disk : Mem) → Ext2Fs → ℕ → ℕ
first_block disk fs n =
    ((inode_on disk fs n).i_block 0 * (fs.block_size / 512) + fs.partition.sect_offset) * 512

-- The directory has been listed, and is the same otherwise.
abbrev pub ListsDir : (dir : ℕ) → Store → List Direntry → Result → Type 0
ListsDir dir store es r =
    (store' : Store) × (r ≡ returned (pos 0) store')
    × (store' dir ≡ record (store dir) { entries = es })

pub list_block-Stored :
    (fuel : ℕ) (read : Read) (disk : Mem) (memory : Memory) (fs : Ext2Fs)
    (dir parent own_inode parent_inode : ℕ) (store : Store) (inode : Inode) (its : List Item)
    → Reads read disk
    → Fresh memory dir parent
    → Knows store dir parent own_inode parent_inode
    → fs.block_size % 512 ≡ 0
    → fs.block_size ≤ 2 ^ 25
    → inode.i_block 0 * (fs.block_size / 512) + fs.partition.sect_offset < 2 ^ 32
    → Stored fs.block_size disk
        ((inode.i_block 0 * (fs.block_size / 512) + fs.partition.sect_offset) * 512)
        0
        its
    → HasInodes fs its
    → length its < fuel
    → ListsDir dir store
        (entries_of memory (inode_on disk fs) dir parent own_inode parent_inode 0 its)
        (list_block fuel read memory fs dir inode store)
unfolding list_block hdd_read
list_block-Stored fuel read disk memory fs dir parent own_inode parent_inode store inode its r fresh
      kn whole room small st has enough =
    go (
      entries_loop-Lists read memory fs (inode_on disk fs) dir parent own_inode parent_inode fresh
        its fuel buf 0 0 store kn (Stored-LaidOut its fs.block_size disk buf (lba * 512) 0 same st)
        (omega arith) (HasInodes-Fetches read disk memory fs its r has) enough)
  where
    lba : ℕ
    lba = inode.i_block 0 * (fs.block_size / 512) + fs.partition.sect_offset

    buf : Mem
    buf =
        (read (fs.block_size / 512)
          (u32 (u32 (inode.i_block 0 * (fs.block_size / 512)) + fs.partition.sect_offset))).1

    at : u32 (u32 (inode.i_block 0 * (fs.block_size / 512)) + fs.partition.sect_offset) ≡ lba
    at = omega (arith, small)

    same : (j : ℕ) → j < fs.block_size → buf j ≡ disk (lba * 512 + j)
    same j lt =
        r.gives (fs.block_size / 512)
          (u32 (inode.i_block 0 * (fs.block_size / 512)) + fs.partition.sect_offset) j
          (omega (arith, room)) (omega arith)
        ∙ ap (λ l. disk (l * 512 + j)) at

    no_error : (ltb 0 fs.block_size && false) ≡ false
    no_error = ground arith

    go :
        Lists read memory fs
          (inode_on disk fs)
          dir
          parent
          own_inode
          parent_inode
          fresh
          0
          store
          its
          (entries_loop fuel read memory fs dir buf 0 0 store)
        → ListsDir dir store
            (entries_of memory (inode_on disk fs) dir parent own_inode parent_inode 0 its)
            (list_block fuel read memory fs dir inode store)
    go (store', eq, kept) = (
      update store' dir (record (store' dir) {
        entries = entries_of memory (inode_on disk fs) dir parent own_inode parent_inode 0 its;
      }),
      rw
          (
            succeeds r (fs.block_size / 512)
                (u32 (inode.i_block 0 * (fs.block_size / 512)) + fs.partition.sect_offset)
                (omega (arith, room)),
            no_error,
            eq,
            list_block,
          )
          refl,
      ground arith
          ∙ ap
              (λ (d : Dir Ext2Fs). record d {
                entries =
                    entries_of memory (inode_on disk fs) dir parent own_inode parent_inode 0 its;
              })
              kept,
    )
