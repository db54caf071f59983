-- ===== src/Boot/Files.antt =====
-- kernel/main.c, kernel/fs/vfs.c, kernel/fs/ext2.c: the files of the root directory, by their paths.
use mathlib.Core.Path.{subst, sym}
use ulmix_i.Base.{
  ℕ, ◌+◌, ◌-◌, ◌*◌, ◌/◌, ◌%◌, ◌^◌, ◌<◌, ◌≡◌, ◌∙◌, refl, ap, Bool, true, false, some, List, [], ◌∷◌,
  ◌++◌, arith, ◌==◌, if◌then◌else◌, length,
}
use ulmix_i.Base.Memory.{Mem, IsStr}
use ulmix_i.Base.Int.{neg}
use ulmix_i.Errno.{enoent}
use ulmix_i.Heap.{Kheap}
use ulmix_i.Vga.{Vga}
use ulmix_i.Vfs.{
  Dir, setup_fs, Direntry, Dirs, root_dir, found, namei, same_name, find_entry, name_room,
}
use ulmix_i.Vfs.Namei.{namei-expected}
use ulmix_i.Vfs.Paths.{pieces, ends, walk, find_entry-entry_named}
use ulmix_i.Ext2
use ulmix_i.Ext2.{Ext2Fs, Inode}
use ulmix_i.Ext2.Entries.{Item, entries_of, directory_of, Fresh}
use ulmix_i.Ext2.Stored.{inode_on}
use ulmix_i.Boot.{Machine, final_heap, no_root, kmain}
use ulmix_i.Boot.Root.{Ends}
use ulmix_i.Boot.Start.{Boots, kmain-Ends}

-- No entry in front has the name.
abbrev pub Absent : (name : List ℕ) → List Item → Type 0
Absent name [] = Unit {0}
Absent name (it ∷ its) = (same_name it.name name ≡ false) × Absent name its

same_name_self : (xs : List ℕ) → same_name xs xs ≡ true
same_name_self [] = refl
same_name_self (x ∷ xs) = ground (arith, same_name_self xs)

-- What stands in a directory for an entry on the disk.
abbrev pub entry_for : Ext2.Memory → (inodes : ℕ → Inode) → (k : ℕ) → Item → Direntry
entry_for memory inodes k it = record {
  type = (inodes it.inode).i_mode / 2 ^ 12 % 2 ^ 4 * 2 ^ 12;
  name = it.name;
  inode_no = it.inode;
  directory = directory_of memory root_dir root_dir 2 2 k it;
}

find_entry-entries_of :
    (before : List Item) (memory : Ext2.Memory) (inodes : ℕ → Inode) (k : ℕ) (it : Item)
    (after : List Item)
    → Absent it.name before
    → find_entry it.name (entries_of memory inodes root_dir root_dir 2 2 k (before ++ it ∷ after))
      ≡ some (entry_for memory inodes (k + length before) it)
unfolding find_entry
find_entry-entries_of [] memory inodes k it after absent =
    rw (same_name_self it.name)
      (ap (λ n. some (entry_for memory inodes n it)) {x = k} {y = k + 0} (omega arith))
find_entry-entries_of (b ∷ before) memory inodes k it after (other, absent) = rw other (
    find_entry-entries_of before memory inodes (k + 1) it after absent
    ∙ ap (λ n. some (entry_for memory inodes n it)) (omega arith))

-- A name is a path of one component.
abbrev pub IsName : List ℕ → Type 0
IsName [] = Unit {0}
IsName (c ∷ cs) = ((c == b'/') ≡ false) × IsName cs

pieces-IsName : (xs : List ℕ) → IsName xs → pieces xs ≡ (xs, [])
pieces-IsName [] h = refl
pieces-IsName (c ∷ cs) (h, hs) = simp (h, pieces-IsName cs hs)

ends-IsName : (xs : List ℕ) (prev : ℕ) → (prev == b'/') ≡ false → IsName xs → ends prev xs ≡ false
ends-IsName [] prev e h = e
ends-IsName (c ∷ cs) prev e (h, hs) = ends-IsName cs c h hs

walk_hit :
    (load : ℕ → Dirs Ext2Fs → Dirs Ext2Fs) (dirs : Dirs Ext2Fs) (slash : Bool)
    (q : List ℕ × List (List ℕ)) (c : ℕ) (cs : List ℕ) (entry : Direntry)
    → slash ≡ false
    → q ≡ (c ∷ cs, [])
    → find_entry (c ∷ cs) (dirs root_dir).entries ≡ some entry
    → walk load slash q.0 q.1 root_dir dirs ≡ found entry dirs
walk_hit load dirs slash q c cs entry no_slash one hit =
    ap (λ s. walk load s q.0 q.1 root_dir dirs) no_slash
    ∙ ap (λ (q : List ℕ × List (List ℕ)). walk load false q.0 q.1 root_dir dirs) one
    ∙ rw (sym (find_entry-entry_named (c ∷ cs) (dirs root_dir).entries) ∙ hit, walk) refl

-- A slash and a name of two characters or more leads to the entry with that name in the root directory.
namei-entry_for :
    (fuel : ℕ) (load : ℕ → Dirs Ext2Fs → Dirs Ext2Fs) (m : Mem) (p : ℕ) (dirs : Dirs Ext2Fs)
    (memory : Ext2.Memory) (inodes : ℕ → Inode) (before : List Item) (it : Item) (after : List Item)
    (name : List ℕ)
    → it.name ≡ name
    → (dirs root_dir).entries
      ≡ entries_of memory inodes root_dir root_dir 2 2 0 (before ++ it ∷ after)
    → Absent it.name before
    → IsName name
    → 1 < length name
    → IsStr m p (b'/' ∷ name)
    → length name + 1 < name_room
    → length name + 1 < fuel
    → namei fuel load m p dirs ≡ found (entry_for memory inodes (length before) it) dirs
namei-entry_for fuel load m p dirs memory inodes before it after [] e listed absent is long s short
      enough =
    absurd (omega (arith, long))
namei-entry_for fuel load m p dirs memory inodes before it after (c ∷ []) e listed absent is long s
      short enough =
    absurd (omega (arith, long))
namei-entry_for fuel load m p dirs memory inodes before it after (c ∷ d ∷ cs) e listed absent is
      long s short enough =
    namei-expected (b'/' ∷ c ∷ d ∷ cs) fuel load m p dirs s (λ t. cc t) (omega arith) (omega arith)
    ∙ walk_hit load dirs (ends c (d ∷ cs)) (pieces (c ∷ d ∷ cs)) c (d ∷ cs)
        (entry_for memory inodes (length before) it) (ends-IsName (d ∷ cs) c is.0 is.1)
        (pieces-IsName (c ∷ d ∷ cs) is) (ap (find_entry (c ∷ d ∷ cs)) listed ∙ hit)
  where
    hit :
        find_entry
          (c ∷ d ∷ cs)
          (entries_of memory inodes root_dir root_dir 2 2 0 (before ++ it ∷ after))
        ≡ some (entry_for memory inodes (length before) it)
    hit =
        subst
          (λ name.
            find_entry name
              (entries_of memory inodes root_dir root_dir 2 2 0 (before ++ it ∷ after))
            ≡ some (entry_for memory inodes (length before) it))
          e
          (find_entry-entries_of before memory inodes 0 it after absent
            ∙ ap (λ n. some (entry_for memory inodes n it)) (omega arith))

-- Where the byte behind the path of the root is 0, kmain() on a machine that starts from its disk comes to its last
-- call, setup_heap() for the final heap. With the directories at that call, a slash and the name of an entry that the root directory has on the disk leads namei() to an entry with that
-- name, the number of its inode, and the type that its inode has on the disk. The name has two to 254
-- characters, none of them a slash, and no entry in front of it has the same.
pub kmain-namei :
    {W : Type 0} (fuel : ℕ) (machine : Machine W) (disk : Mem) (fs : Ext2Fs) (before : List Item)
    (it : Item) (after : List Item) (load : ℕ → Dirs Ext2Fs → Dirs Ext2Fs) (m : Mem)
    (root path rounds : ℕ) (heap : Kheap) (screen : Vga) (dirs : Dirs Ext2Fs)
    → Boots fuel machine disk fs (before ++ it ∷ after)
    → Fresh machine.memory root_dir root_dir
    → length (before ++ it ∷ after) < fuel
    → IsStr m root (b'/' ∷ [])
    → m (root + 1 + 1) ≡ 0
    → Absent it.name before
    → IsName it.name
    → 1 < length it.name
    → length it.name + 1 < name_room
    → length it.name + 1 < rounds
    → IsStr m path (b'/' ∷ it.name)
    → (store : Dirs Ext2Fs) × (kmain fuel load machine m root heap screen dirs
        ≡ final_heap store 0xc0000000 (0xffffffff - 0xc0000000) heap)
      × (namei rounds load m path store
          ≡ found (entry_for machine.memory (inode_on disk fs) (length before) it) store)
kmain-namei fuel machine disk fs before it after load m root path rounds heap screen dirs b fresh
      enough slash zero_behind absent is long short more s =
    go (
      kmain-Ends fuel machine disk fs (before ++ it ∷ after) load m root heap screen dirs b fresh
        enough slash.0 slash.2)
  where
    go :
        Ends machine.memory disk fs
          (before ++ it ∷ after)
          m
          root
          heap
          dirs
          (kmain fuel load machine m root heap screen dirs)
        → (store : Dirs Ext2Fs) × (kmain fuel load machine m root heap screen dirs
            ≡ final_heap store 0xc0000000 (0xffffffff - 0xc0000000) heap)
          × (namei rounds load m path store
              ≡ found (entry_for machine.memory (inode_on disk fs) (length before) it) store)
    go (store, e, here) = (
      store,
      e ∙ zero_there,
      namei-entry_for rounds load m path store machine.memory (inode_on disk fs) before it after
          it.name refl (ap (λ (d : Dir Ext2Fs). d.entries) here) absent is long s short more,
    )
      where
        zero_there :
            (if m (root + 1 + 1) == 0
              then final_heap store 0xc0000000 (0xffffffff - 0xc0000000) heap
              else no_root (neg enoent) (setup_fs dirs))
            ≡ final_heap store 0xc0000000 (0xffffffff - 0xc0000000) heap
        zero_there = rw zero_behind refl
