-- ===== src/Vfs.antt =====
-- kernel/fs/vfs.c with kernel/include/vfs.h: how a path name leads to a directory entry. Directories stand in
-- a store by address; the entries of one are a list, empty for NULL; the path stands in memory. `F` is what a
-- filesystem keeps of a mount.
pub mod Paths
pub mod Namei
mod Tests
use ulmix_i.Base.{
  ℕ, zero, suc, ◌+◌, ◌-◌, Bool, true, false, not, ◌&&◌, Option, none, some, List, [], ◌∷◌, ltb,
  ◌==◌, if◌then◌else◌, length,
}
use ulmix_i.Base.Memory.{Mem}
use ulmix_i.Errno.{enoent, enotdir}

-- F_DIR of enum ftype_e.
abbrev pub f_dir : ℕ
f_dir = 0x4000

pub record Direntry : Type 0 where
  pub type : ℕ
  pub name : List ℕ
  pub inode_no : ℕ
  pub directory : ℕ

-- struct dir_struct, with the two fields of its `dir_entry` that the code reads: the number of the inode, and
-- the directory that the entry stands in. `fs_info` is the mounted filesystem, `none` for NULL.
pub record Dir (F : Type 0) : Type 0 where
  pub inode_no : ℕ
  pub parent : ℕ
  pub fs_info : Option F
  pub mnt_point : ℕ
  pub entry_inode_no : ℕ
  pub entry_parent : ℕ
  pub entries : List Direntry

abbrev pub Dirs : Type 0 → Type 0
Dirs F = ℕ → Dir F

abbrev pub update : {F : Type 0} → Dirs F → ℕ → Dir F → Dirs F
update dirs dir d a = if dir == a then d else dirs a

-- Where `root_dir` stands.
abbrev pub root_dir : ℕ
root_dir = 1

unfoldable pub root_direntry : Direntry
root_direntry = record { type = f_dir; name = []; inode_no = 0; directory = root_dir }

-- Both root_dir and root_direntry are static: the fields that setup_fs() does not set are 0.
unfoldable pub setup_fs : {F : Type 0} → Dirs F → Dirs F
setup_fs dirs = update dirs root_dir (record {
  inode_no = 0;
  parent = root_dir;
  fs_info = none;
  mnt_point = 0;
  entry_inode_no = 0;
  entry_parent = root_dir;
  entries = [];
})

-- What namei() returns: an entry or an error, with the directories it has loaded; or a write behind
-- `current_name`.
pub data Found (F : Type 0) : Type 0 where
  found : Direntry → Dirs F → Found F
  failed : (err : ℕ) → Dirs F → Found F
  overflow : Found F
  out_of_fuel : Found F

abbrev push : ℕ → Option (List ℕ × ℕ) → Option (List ℕ × ℕ)
push c none = none
push c (some (name, rem)) = some (c ∷ name, rem)

-- strccpy(): the characters up to the terminator or the NUL, and where to go on.
pub strccpy : ℕ → Mem → (src terminator : ℕ) → Option (List ℕ × ℕ)
strccpy zero m src terminator = none
strccpy (suc fuel) m src terminator =
    let rest = strccpy fuel m (src + 1) terminator in
    if m src == 0
    then some ([], src)
    else if m src == terminator
    then some ([], src + 1)
    else push (m src) rest

abbrev pub same_name : List ℕ → List ℕ → Bool
same_name [] [] = true
same_name [] (y ∷ ys) = false
same_name (x ∷ xs) [] = false
same_name (x ∷ xs) (y ∷ ys) = x == y && same_name xs ys

-- The loop over the entries, with strcmp() on the names.
unfoldable pub find_entry : List ℕ → List Direntry → Option Direntry
find_entry current_name [] = none
find_entry current_name (entry ∷ next) =
    let rest = find_entry current_name next in
    if same_name entry.name current_name then some entry else rest

abbrev pub is_dir : Direntry → Bool
is_dir entry = entry.type == f_dir

abbrev pub or_dot : List ℕ → List ℕ
or_dot [] = b'.' ∷ []
or_dot (c ∷ name) = c ∷ name

abbrev pub is_null : List Direntry → Bool
is_null [] = true
is_null (entry ∷ next) = false

-- `if (entry->directory->entries == NULL && …) get_direntries(entry->directory);`. The filesystem's
-- fs_get_direntries() is `load`.
pub get_direntries : {F : Type 0} → (load : ℕ → Dirs F → Dirs F) → ℕ → Dirs F → Dirs F
get_direntries load dir dirs = if is_null (dirs dir).entries then load dir dirs else dirs

-- `char current_name[256]`.
abbrev pub name_room : ℕ
name_room = 256

pub namei_recursive :
    {F : Type 0}
    → ℕ
    → (load : ℕ → Dirs F → Dirs F) → Mem
    → (pathname working_dir : ℕ) → Dirs F
    → Found F
namei_recursive zero load m pathname working_dir dirs = out_of_fuel
namei_recursive (suc fuel) load m pathname working_dir dirs =
    elim (strccpy (suc fuel) m pathname b'/') [
      | none ↦ out_of_fuel
      | some (name, rem) ↦ elim (find_entry (or_dot name) (dirs working_dir).entries) [
        | none ↦ if ltb (length name) name_room then failed enoent dirs else overflow
        | some entry ↦
            (let rest =
                namei_recursive fuel load m rem entry.directory
                  (get_direntries load entry.directory dirs) in
              if not (ltb (length name) name_room)
              then overflow
              else if m rem == 0
              then (if m (rem - 1) == b'/' && not (is_dir entry)
                  then failed enotdir dirs
                  else found entry dirs)
              else if not (is_dir entry)
              then failed enoent dirs
              else rest)
      ]
    ]

-- namei(). The test of `pathname[1]` stands behind `pathname += 1`.
unfoldable pub namei :
    {F : Type 0} → ℕ → (load : ℕ → Dirs F → Dirs F) → Mem → (pathname : ℕ) → Dirs F → Found F
unfolding namei_recursive
namei fuel load m pathname dirs =
    let absolute = namei_recursive fuel load m (pathname + 1) root_dir dirs in
    let relative = namei_recursive fuel load m pathname root_dir dirs in
    if m pathname == b'/'
    then (if m (pathname + 1 + 1) == 0 then found root_direntry dirs else absolute)
    else relative
