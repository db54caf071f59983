-- ===== src/Programs/Coreutils.antt =====
-- userspace/coreutils/coreutils.c and ls.c.
pub mod Applets
use Prim.Native.String.{String}
use ulmix_i.Base.{ℕ, zero, suc, ◌+◌, Option, none, some, List, [], ◌∷◌, ltb, ◌==◌, if◌then◌else◌}
use ulmix_i.Base.Int.{ℤ, pos}
use ulmix_i.Base.Memory.{Mem}
use ulmix_i.LibC.{strcpy, strlen}
use ulmix_i.LibC.Messages.{user_strerror}
use ulmix_i.Shell.{is_text}
use ulmix_i.Programs.{
  codes, num, chars, string, message, Program, returns, unfinished, wild_access, and_then, printf,
  basename, opendir, readdir,
}

-- The texts of the permissions and of the owner are the same in every line, as is the size.
abbrev pub entry_line : (name : List ℕ) → Program ℤ → Program ℤ
entry_line name next =
    printf "%c%s%s%s %s %s %08lu %s\n"
      (num b'd'
        ∷ chars (codes "rwx")
        ∷ chars (codes "rwx")
        ∷ chars (codes "rwx")
        ∷ chars (codes "root")
        ∷ chars (codes "root")
        ∷ num 4096
        ∷ chars name
        ∷ [])
      next

-- closedir() makes no system call.
pub list_loop : (fuel dirp : ℕ) → Program ℤ
unfolding readdir
list_loop zero dirp = unfinished
list_loop (suc fuel) dirp = elim (readdir dirp) [
  | none ↦ returns (pos 0)
  | some name ↦ entry_line name (list_loop fuel dirp)
]

-- `program` is the address of argv[0].
unfoldable pub ls : (fuel program : ℕ) → Program ℤ
unfolding list_loop opendir and_then
ls fuel program = and_then (opendir (b'.' ∷ [])) (λ d.
    let (dirp, errno) = d in
    if dirp == 0
    then printf "%s: error: %s\n" (string program ∷ message (user_strerror errno) ∷ [])
        (returns (pos 1))
    else list_loop fuel dirp)

-- What main() does with the name behind the last slash of argv[0].
pub run_applet : (fuel : ℕ) → Mem → (program base : ℕ) → Program ℤ
unfolding ls is_text
run_applet fuel m program base =
    if is_text m base (codes "coreutils")
    then printf "Ulmix coreutils\nCopyright (C) 2019\nWritten by Alexander Ulmer\n" []
        (returns (pos 0))
    else if is_text m base (codes "ls")
    then ls fuel program
    else printf "coreutils: %s: command not found\n" (string base ∷ []) (returns (pos 1))

abbrev pub based : (fuel : ℕ) → Mem → (program : ℕ) → Option ℕ → Program ℤ
based fuel m program none = wild_access
based fuel m program (some base) = run_applet fuel m program base

-- The size of the array `prg`.
abbrev pub prg_size : ℕ
prg_size = 32

abbrev pub copied : (fuel : ℕ) → (program : ℕ) → Option (ℕ × Mem) → Program ℤ
copied fuel program none = unfinished
copied fuel program (some (prg, m)) = based fuel m program (basename fuel m prg)

-- main(), where `prg` is the address of the local array, and `program` is argv[0].
pub coreutils : (fuel : ℕ) → Mem → (prg argc program : ℕ) → Program ℤ
unfolding run_applet basename
coreutils fuel m prg argc program =
    if ltb argc 1 then returns (pos 1) else elim (strlen fuel m program) [
      | none ↦ unfinished
      | some n ↦
          if ltb n prg_size then copied fuel program (strcpy fuel m prg program) else wild_access
    ]
