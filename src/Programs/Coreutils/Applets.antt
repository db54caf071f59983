-- ===== src/Programs/Coreutils/Applets.antt =====
-- userspace/stdlib/libgen.c and userspace/coreutils/coreutils.c: which program a path starts.
use mathlib.Core.Path.{subst}
use ulmix_i.Base.{
  ℕ, suc, ◌+◌, ◌^◌, ◌<◌, ◌≤◌, ◌≡◌, ◌≢◌, ◌∙◌, refl, ap, true, false, some, List, [], ◌∷◌, ◌++◌,
  arith, ◌==◌, ltb, if◌then◌else◌, length, length-append,
}
use ulmix_i.Base.Memory.{Mem, IsStr}
use ulmix_i.LibC.Copies.{Forward, strcpy-memcpy, memcpy-within}
use ulmix_i.LibC.Strings.{strlen-length}
use ulmix_i.LibC.{memcpy}
use ulmix_i.Shell.{is_text}
use ulmix_i.Vfs.{same_name}
use ulmix_i.Base.Int.{ℤ, pos}
use ulmix_i.Programs.{codes, string, Program, returns, printf, basename_loop, basename}
use ulmix_i.Programs.Coreutils.{ls, run_applet, prg_size, coreutils}

-- No character is NUL or a slash.
abbrev pub IsComponent : List ℕ → Type 0
IsComponent [] = Unit {0}
IsComponent (c ∷ cs) = ((c == 0) ≡ false) × ((c == b'/') ≡ false) × IsComponent cs

-- The search passes over a component.
basename_loop-IsComponent :
    (name : List ℕ) (m : Mem) (pathname a : ℕ)
    → IsComponent name
    → IsStr m a name
    → basename_loop m pathname (a + length name) ≡ basename_loop m pathname a
unfolding basename_loop
basename_loop-IsComponent [] m pathname a is s =
    ap (λ x. basename_loop m pathname x) {x = a + 0} {y = a} (omega arith)
basename_loop-IsComponent (c ∷ cs) m pathname a is s =
    ap (λ x. basename_loop m pathname x) {x = a + suc (length cs)} {y = a + 1 + length cs}
      (omega arith)
    ∙ basename_loop-IsComponent cs m pathname (a + 1) is.2 s.2
    ∙ passed
  where
    passed : basename_loop m pathname (a + 1) ≡ basename_loop m pathname a
    passed =
        ap (λ x. basename_loop m pathname x) {x = a + 1} {y = suc a} (omega arith)
        ∙ rw (s.0, is.0, is.1) refl

IsStr-append :
    (xs ys : List ℕ) (m : Mem) (p : ℕ) → IsStr m p (xs ++ ys) → IsStr m (p + length xs) ys
IsStr-append [] ys m p s = subst (λ q. IsStr m q ys) {x = p} (omega arith) s
IsStr-append (x ∷ xs) ys m p s =
    subst (λ q. IsStr m q ys) {x = p + 1 + length xs} (omega arith)
      (IsStr-append xs ys m (p + 1) s.2)

basename_slash :
    (dir name : List ℕ) (fuel : ℕ) (m : Mem) (pathname : ℕ)
    → IsComponent name
    → IsStr m pathname (dir ++ b'/' ∷ name)
    → length (dir ++ b'/' ∷ name) < fuel
    → length (dir ++ b'/' ∷ name) < 2 ^ 32
    → basename fuel m pathname ≡ some (pathname + length dir + 1)
unfolding basename
basename_slash dir name fuel m pathname is s enough small =
    rw (strlen-length (dir ++ b'/' ∷ name) fuel m pathname s enough small, basename)
      (ap (λ x. basename_loop m pathname x) {y = pathname + length dir + 1 + length name}
          (omega (arith, length-append dir (b'/' ∷ name)))
        ∙ basename_loop-IsComponent name m pathname (pathname + length dir + 1) is behind.2
        ∙ ap (λ x. basename_loop m pathname x) {x = pathname + length dir + 1}
            {y = suc (pathname + length dir)} (omega arith)
        ∙ rw (behind.0, basename_loop) refl)
  where
    behind : IsStr m (pathname + length dir) (b'/' ∷ name)
    behind = IsStr-append dir (b'/' ∷ name) m pathname s

-- No character is NUL.
abbrev IsText : List ℕ → Type 0
IsText [] = Unit {0}
IsText (c ∷ cs) = (c ≢ 0) × IsText cs

is_text-same_name :
    (xs text : List ℕ) (m : Mem) (p : ℕ)
    → IsStr m p xs
    → IsText text
    → is_text m p text ≡ same_name xs text
unfolding is_text
is_text-same_name [] [] m p s t = ground (arith, s)
is_text-same_name [] (c ∷ text) m p s t = ground (arith, s, t.0)
is_text-same_name (x ∷ xs) [] m p s t = ground (arith, s.0, s.1)
is_text-same_name (x ∷ xs) (c ∷ text) m p s t =
    rw (s.0, is_text-same_name xs text m (p + 1) s.2 t.1) refl

IsStr-moved :
    (xs : List ℕ) (m m' : Mem) (p q : ℕ)
    → IsStr m p xs
    → ((i : ℕ) → i ≤ length xs → m' (q + i) ≡ m (p + i))
    → IsStr m' q xs
IsStr-moved [] m m' p q s same =
    ap m' {x = q} {y = q + 0} (omega arith)
    ∙ same 0 (omega arith)
    ∙ ap m {x = p + 0} {y = p} (omega arith)
    ∙ s
IsStr-moved (x ∷ xs) m m' p q s same = (
  ap m' {x = q} {y = q + 0} (omega arith)
      ∙ same 0 (omega arith)
      ∙ ap m {x = p + 0} {y = p} (omega arith)
      ∙ s.0,
  s.1,
  IsStr-moved xs m m' (p + 1) (q + 1) s.2 (λ i le.
      ap m' {x = q + 1 + i} {y = q + suc i} (omega arith)
      ∙ same (suc i) (omega arith)
      ∙ ap m {x = p + suc i} {y = p + 1 + i} (omega arith)),
)

memcpy-IsStr :
    (xs : List ℕ) (m : Mem) (dest src : ℕ)
    → IsStr m src xs
    → Forward dest src (length xs + 1)
    → IsStr (memcpy m dest src (length xs + 1)) dest xs
memcpy-IsStr xs m dest src s fwd =
    IsStr-moved xs m (memcpy m dest src (length xs + 1)) src dest s
      (λ i le. memcpy-within (length xs + 1) m dest src (dest + i) fwd ∙ ground (arith, le))

-- The program behind a name.
abbrev pub applet : (fuel program base : ℕ) → (name : List ℕ) → Program ℤ
applet fuel program base name =
    if same_name name (codes "coreutils")
    then printf "Ulmix coreutils\nCopyright (C) 2019\nWritten by Alexander Ulmer\n" []
        (returns (pos 0))
    else if same_name name (codes "ls")
    then ls fuel program
    else printf "coreutils: %s: command not found\n" (string base ∷ []) (returns (pos 1))

run_applet-applet :
    (fuel : ℕ) (m : Mem) (program base : ℕ) (name : List ℕ)
    → IsStr m base name
    → run_applet fuel m program base ≡ applet fuel program base name
unfolding run_applet
run_applet-applet fuel m program base name s =
    rw
      (
        is_text-same_name name (codes "coreutils") m base s coreutils-IsText,
        is_text-same_name name (codes "ls") m base s ls-IsText,
        run_applet,
      )
      refl
  where
    coreutils-IsText : IsText (codes "coreutils")
    coreutils-IsText = (
      omega arith,
      (
        omega arith,
        (
          omega arith,
          (
            omega arith,
            (omega arith, (omega arith, (omega arith, (omega arith, (omega arith, tt))))),
          ),
        ),
      ),
    )

    ls-IsText : IsText (codes "ls")
    ls-IsText = (omega arith, (omega arith, tt))

-- coreutils, with one argument or more and called by a path with a slash, does what stands behind the last slash: the banner, or ls, or
-- the message that there is no such command. The path is shorter than the array that it is copied to, and the
-- copy does not overwrite what it has yet to read.
pub coreutils-applet :
    (dir name : List ℕ) (fuel : ℕ) (m : Mem) (prg argc program : ℕ)
    → IsComponent name
    → IsStr m program (dir ++ b'/' ∷ name)
    → Forward prg program (length (dir ++ b'/' ∷ name) + 1)
    → length (dir ++ b'/' ∷ name) < fuel
    → length (dir ++ b'/' ∷ name) < prg_size
    → 0 < argc
    → coreutils fuel m prg argc program ≡ applet fuel program (prg + length dir + 1) name
unfolding coreutils
coreutils-applet dir name fuel m prg argc program is s fwd enough short some_args =
    rw
      (
        some_arg,
        strlen-length path fuel m program s enough (omega arith),
        fits,
        strcpy-memcpy path fuel m prg program s fwd enough,
        basename_slash dir name fuel copy prg is moved enough (omega arith),
        coreutils,
      )
      (run_applet-applet fuel copy program (prg + length dir + 1) name behind.2)
  where
    path : List ℕ
    path = dir ++ b'/' ∷ name

    copy : Mem
    copy = memcpy m prg program (length path + 1)

    moved : IsStr copy prg path
    moved = memcpy-IsStr path m prg program s fwd

    behind : IsStr copy (prg + length dir) (b'/' ∷ name)
    behind = IsStr-append dir (b'/' ∷ name) copy prg moved

    some_arg : ltb argc 1 ≡ false
    some_arg = ground arith

    fits : ltb (length path) prg_size ≡ true
    fits = ground (arith, short)
