-- ===== src/Vfs/Tests.antt =====
-- kernel/fs/vfs.c on a small tree: "etc" with the file "rc", and the path "/etc/rc".
use ulmix_i.Base.{
  ℕ, zero, suc, ◌≡◌, refl, none, some, List, [], ◌∷◌, arith, get_elem?, if◌then◌else◌, ◌==◌,
}
use ulmix_i.Base.Memory.{Mem, IsStr}
use ulmix_i.Vfs.{
  f_dir, Direntry, Dirs, update, root_dir, root_direntry, Found, found, failed, overflow, namei,
  namei_recursive,
}
use ulmix_i.Vfs.Namei.{namei-expected}

abbrev etc_rc : List ℕ
etc_rc = b'/' ∷ b'e' ∷ b't' ∷ b'c' ∷ b'/' ∷ b'r' ∷ b'c' ∷ []

abbrev ram : List ℕ → Mem
ram bytes zero = 0
ram bytes (suc a) = elim (get_elem? bytes a) [ none ↦ 0 | some b ↦ b ]

abbrev etc : Direntry
etc = record { type = f_dir; name = b'e' ∷ b't' ∷ b'c' ∷ []; inode_no = 12; directory = 2 }

abbrev rc : Direntry
rc = record { type = 0x8000; name = b'r' ∷ b'c' ∷ []; inode_no = 13; directory = 0 }

-- The entries of "etc" are not loaded yet.
abbrev tree : Dirs ℕ
tree dir = record {
  inode_no = 0;
  parent = root_dir;
  fs_info = none;
  mnt_point = 0;
  entry_inode_no = 0;
  entry_parent = root_dir;
  entries = (if dir == root_dir then etc ∷ [] else []);
}

abbrev load_etc : ℕ → Dirs ℕ → Dirs ℕ
load_etc dir dirs = update dirs dir (record (dirs dir) { entries = rc ∷ [] })

etc_rc-IsStr : IsStr (ram etc_rc) 1 etc_rc
etc_rc-IsStr = (
  refl,
  omega arith,
  (
    refl,
    omega arith,
    (
      refl,
      omega arith,
      (refl, omega arith, (refl, omega arith, (refl, omega arith, (refl, omega arith, refl)))),
    ),
  ),
)

namei-expected_example : namei 10 load_etc (ram etc_rc) 1 tree ≡ found rc (load_etc 2 tree)
unfolding ulmix_i.Vfs.find_entry ulmix_i.Vfs.get_direntries
namei-expected_example =
    namei-expected etc_rc 10 load_etc (ram etc_rc) 1 tree etc_rc-IsStr (λ e. cc) (omega arith)
      (omega arith)
