-- ===== src/Ext2/Entries.antt =====
-- kernel/fs/ext2.c: the entries that ext2_get_direntries() finds in a block.
use mathlib.Core.Path.{subst}
use ulmix_i.Base.{
  ℕ, zero, suc, ◌+◌, ◌*◌, ◌/◌, ◌%◌, ◌^◌, ◌<◌, ◌≤◌, ◌≡◌, ◌≢◌, ◌∙◌, refl, ap, Bool, true, false, not,
  ◌&&◌, some, List, [], ◌∷◌, arith, ltb, ◌==◌, if◌then◌else◌, length, get_elem?,
}
use ulmix_i.Base.Memory.{Mem, Holds}
use ulmix_i.Devices.{le32}
use ulmix_i.Vfs.{Direntry, Dir}
use ulmix_i.Ext2.{
  Read, Ext2Fs, Inode, DirRecord, le16, read_record, fetched, fetch_inode, Store, Memory, name_of,
  place, Listed, listed, cons_listed, next_record, add_entry, entries_loop,
}

-- An entry as it is to be on the disk.
pub record Item : Type 0 where
  pub inode : ℕ
  pub rec_len : ℕ
  pub file_type : ℕ
  pub name : List ℕ

abbrev pub encode : Item → List ℕ
encode it =
    (it.inode % 256)
    ∷ (it.inode / 256 % 256)
    ∷ (it.inode / 65536 % 256)
    ∷ (it.inode / 16777216)
    ∷ (it.rec_len % 256)
    ∷ (it.rec_len / 256)
    ∷ (length it.name)
    ∷ it.file_type
    ∷ it.name

-- The entries stand one behind the other from offset `i` to the end of the block, each with room for its
-- name and perhaps more behind it.
abbrev pub LaidOut : (block_size : ℕ) → Mem → ℕ → List Item → Type 0
LaidOut block_size buf i [] = i ≡ block_size
LaidOut block_size buf i (it ∷ its) =
    Holds buf i (encode it)
    × (8 + length it.name ≤ it.rec_len)
    × (it.rec_len % 4 ≡ 0)
    × (i + it.rec_len ≤ block_size)
    × LaidOut block_size buf (i + it.rec_len) its

Holds-get_elem? :
    (xs : List ℕ) (m : Mem) (p j x : ℕ) → Holds m p xs → get_elem? xs j ≡ some x → m (p + j) ≡ x
Holds-get_elem? [] m p j x h e = cc
Holds-get_elem? (y ∷ xs) m p zero x h e = ap m {y = p} (omega arith) ∙ ground (arith, h.0)
Holds-get_elem? (y ∷ xs) m p (suc j) x h e =
    ap m {y = p + 1 + j} (omega arith) ∙ Holds-get_elem? xs m (p + 1) j x h.1 e

name_of-Holds : (xs : List ℕ) (m : Mem) (p : ℕ) → Holds m p xs → name_of (length xs) m p ≡ xs
unfolding name_of
name_of-Holds [] m p h = refl
name_of-Holds (x ∷ xs) m p h = cc (h.0, name_of-Holds xs m (p + 1) h.1)

module _ (buf : Mem) (i : ℕ) (it : Item) (h : Holds buf i (encode it)) where
  read_record-encode : read_record buf i ≡ record {
    inode = it.inode;
    rec_len = it.rec_len;
    name_len = length it.name;
    file_type = it.file_type;
  }
  unfolding read_record
  read_record-encode = λ k. record {
    inode = inode_eq k;
    rec_len = rec_len_eq k;
    name_len = Holds-get_elem? (encode it) buf i 6 (length it.name) h refl k;
    file_type = Holds-get_elem? (encode it) buf i 7 it.file_type h refl k;
  }
    where
      inode_eq : le32 buf i ≡ it.inode
      inode_eq = omega (
        arith,
        h.0,
        Holds-get_elem? (encode it) buf i 1 (it.inode / 256 % 256) h refl,
        Holds-get_elem? (encode it) buf i 2 (it.inode / 65536 % 256) h refl,
        Holds-get_elem? (encode it) buf i 3 (it.inode / 16777216) h refl,
      )

      rec_len_eq : le16 buf (i + 4) ≡ it.rec_len
      rec_len_eq = omega (
        arith,
        Holds-get_elem? (encode it) buf i 4 (it.rec_len % 256) h refl,
        Holds-get_elem? (encode it) buf i 5 (it.rec_len / 256) h refl,
        ap buf {x = i + 4 + 1} {y = i + 5} (omega arith),
      )

  name_of-encode : name_of (length it.name) buf (i + 8) ≡ it.name
  name_of-encode = name_of-Holds it.name buf (i + 8) (behind i h)
    where
      behind : (i : ℕ) → Holds buf i (encode it) → Holds buf (i + 8) it.name
      behind i h =
          subst (λ p. Holds buf p it.name) {x = i + 1 + 1 + 1 + 1 + 1 + 1 + 1 + 1} (omega arith)
            h.1.1.1.1.1.1.1.1

-- The directory that an entry leads to: itself, its parent, or a new one; NULL for what is no directory.
abbrev pub directory_of : (memory : Memory) → (dir parent own_inode parent_inode k : ℕ) → Item → ℕ
directory_of memory dir parent own_inode parent_inode k it =
    if it.file_type == 2
    then (if it.inode == own_inode
        then dir
        else if it.inode == parent_inode
        then parent
        else memory.node k)
    else 0

-- The list of entries that a block with these entries is to give, where `inodes` are those on the disk.
abbrev pub entries_of :
    (memory : Memory) (inodes : ℕ → Inode) (dir parent own_inode parent_inode k : ℕ)
    → List Item
    → List Direntry
entries_of memory inodes dir parent own_inode parent_inode k [] = []
entries_of memory inodes dir parent own_inode parent_inode k (it ∷ its) =
    record {
      type = (inodes it.inode).i_mode / 2 ^ 12 % 2 ^ 4 * 2 ^ 12;
      name = it.name;
      inode_no = it.inode;
      directory = directory_of memory dir parent own_inode parent_inode k it;
    }
    ∷ entries_of memory inodes dir parent own_inode parent_inode (k + 1) its

-- The inode of every entry can be fetched.
abbrev pub Fetches : Read → Memory → Ext2Fs → (ℕ → Inode) → List Item → Type 0
Fetches read memory fs inodes [] = Unit {0}
Fetches read memory fs inodes (it ∷ its) =
    (fetch_inode read it.inode fs memory.garbage ≡ fetched (inodes it.inode))
    × Fetches read memory fs inodes its

-- kmalloc() gives no directory that is in use, and memory that happens to hold NULL.
pub record Fresh (memory : Memory) (dir parent : ℕ) : Type 0 where
  pub not_dir : (k : ℕ) → memory.node k ≢ dir
  pub not_parent : (k : ℕ) → memory.node k ≢ parent
  pub null : (k : ℕ) → memory.payload k ≡ 0

-- What the loop relies on in the store.
pub record Knows (store : Store) (dir parent own_inode parent_inode : ℕ) : Type 0 where
  pub own : (store dir).inode_no ≡ own_inode
  pub up : (store dir).parent ≡ parent
  pub parents : (store parent).inode_no ≡ parent_inode

next_record_aligned :
    (i rec_len : ℕ) → i % 4 ≡ 0 → rec_len % 4 ≡ 0 → next_record i rec_len ≡ i + rec_len
unfolding next_record
next_record_aligned i rec_len a b = ground arith

module _ (read : Read) (memory : Memory) (fs : Ext2Fs) (inodes : ℕ → Inode)
    (dir parent own_inode parent_inode : ℕ) (fresh : Fresh memory dir parent) where
  record_of : Item → DirRecord
  record_of it = record {
    inode = it.inode;
    rec_len = it.rec_len;
    name_len = length it.name;
    file_type = it.file_type;
  }

  place-directory_of :
      (k : ℕ) (it : Item) (store : Store)
      → Knows store dir parent own_inode parent_inode
      → ((place memory k dir (record_of it) store).0
          ≡ directory_of memory dir parent own_inode parent_inode k it)
        × ((place memory k dir (record_of it) store).2 dir ≡ store dir)
        × ((place memory k dir (record_of it) store).2 parent ≡ store parent)
  unfolding place record_of
  place-directory_of k it store kn = (
    ground (arith, kn.own, kn.up, kn.parents),
    ground (arith, fresh.not_dir k),
    ground (arith, fresh.not_parent k),
  )

  quiet : (k : ℕ) (b : Bool) → (not b && not (memory.payload k == 0)) ≡ false
  quiet k true = refl
  quiet k false = ground (arith, fresh.null k)

  listed_entry : ℕ → Item → Direntry
  listed_entry k it = record {
    type = (inodes it.inode).i_mode / 2 ^ 12 % 2 ^ 4 * 2 ^ 12;
    name = it.name;
    inode_no = it.inode;
    directory = directory_of memory dir parent own_inode parent_inode k it;
  }

  one_entry :
      (fuel : ℕ) (buf : Mem) (i k : ℕ) (store : Store) (it : Item)
      → Knows store dir parent own_inode parent_inode
      → Holds buf i (encode it)
      → i < fs.block_size
      → i % 4 ≡ 0
      → it.rec_len % 4 ≡ 0
      → fetch_inode read it.inode fs memory.garbage ≡ fetched (inodes it.inode)
      → entries_loop (suc fuel) read memory fs dir buf i k store
        ≡ cons_listed (listed_entry k it) (
            entries_loop fuel read memory fs dir buf
              (i + it.rec_len)
              (k + 1)
              (place memory k dir (record_of it) store).2)
  unfolding entries_loop record_of listed_entry
  one_entry fuel buf i k store it kn h lt al al' f = rw (
    read_record-encode buf i it h,
    inside,
    quiet k (place memory k dir (record_of it) store).1,
    f,
    name_of-encode buf i it h,
    next_record_aligned i it.rec_len al al',
    (place-directory_of k it store kn).0,
    entries_loop,
    add_entry,
  )
    where
      inside : ltb i fs.block_size ≡ true
      inside = ground arith

  -- What the loop is to leave.
  abbrev pub Lists : (k : ℕ) → Store → List Item → Listed → Type 0
  Lists k store its r =
      (store' : Store) × (r
        ≡ listed (entries_of memory inodes dir parent own_inode parent_inode k its) store')
      × (store' dir ≡ store dir)

  cons_Lists :
      (k : ℕ) (store store1 : Store) (it : Item) (its : List Item) (r : Listed)
      → store1 dir ≡ store dir
      → Lists (k + 1) store1 its r
      → Lists k store (it ∷ its) (cons_listed (listed_entry k it) r)
  unfolding listed_entry
  cons_Lists k store store1 it its r e (store', eq, kept) = (store', rw eq refl, kept ∙ e)

  pub entries_loop-Lists :
      (its : List Item) (fuel : ℕ) (buf : Mem) (i k : ℕ) (store : Store)
      → Knows store dir parent own_inode parent_inode
      → LaidOut fs.block_size buf i its
      → i % 4 ≡ 0
      → Fetches read memory fs inodes its
      → length its < fuel
      → Lists k store its (entries_loop fuel read memory fs dir buf i k store)
  unfolding entries_loop
  entries_loop-Lists its zero buf i k store kn laid al f enough = absurd (omega arith)
  entries_loop-Lists [] (suc fuel) buf i k store kn laid al f enough = (store, ground arith, refl)
  entries_loop-Lists (it ∷ its) (suc fuel) buf i k store kn laid al f enough =
      rw (one_entry fuel buf i k store it kn laid.0 (omega arith) al laid.2 f.0) (
        cons_Lists k store (place memory k dir (record_of it) store).2 it its _ placed.1 (
          entries_loop-Lists its fuel buf (i + it.rec_len) (k + 1)
            (place memory k dir (record_of it) store).2
            (record {
              own = ap (λ (d : Dir Ext2Fs). d.inode_no) placed.1 ∙ kn.own;
              up = ap (λ (d : Dir Ext2Fs). d.parent) placed.1 ∙ kn.up;
              parents = ap (λ (d : Dir Ext2Fs). d.inode_no) placed.2 ∙ kn.parents;
            })
            laid.4 (omega arith) f.1 (omega arith)))
    where
      placed :
          ((place memory k dir (record_of it) store).0
            ≡ directory_of memory dir parent own_inode parent_inode k it)
          × ((place memory k dir (record_of it) store).2 dir ≡ store dir)
          × ((place memory k dir (record_of it) store).2 parent ≡ store parent)
      placed = place-directory_of k it store kn
