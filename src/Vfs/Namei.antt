-- ===== src/Vfs/Namei.antt =====
-- kernel/fs/vfs.c: namei(), from the slash in front of a path on.
use ulmix_i.Base.{
  ℕ, suc, ◌+◌, ◌-◌, ◌<◌, ◌≡◌, ◌≢◌, ◌∙◌, inl, inr, refl, sym, Bool, true, false, List, [], ◌∷◌,
  arith, ◌==◌, if◌then◌else◌, length, Bool-cases,
}
use ulmix_i.Base.Memory.{Mem, IsStr}
use ulmix_i.Errno.{enoent}
use ulmix_i.Vfs.{
  Dirs, root_dir, root_direntry, Found, found, failed, find_entry, name_room, namei_recursive,
  namei,
}
use ulmix_i.Vfs.Paths.{pieces, ends, walk, namei_recursive-walk}

-- What namei() gives for a path: the walk from the root along its components, but the root itself for a
-- slash and one more character, whatever that is.
abbrev walk_path :
    {F : Type 0} → (load : ℕ → Dirs F → Dirs F) → (prev : ℕ) → List ℕ → Dirs F → Found F
walk_path load prev xs dirs = walk load (ends prev xs) (pieces xs).0 (pieces xs).1 root_dir dirs

abbrev from_slash : {F : Type 0} → (load : ℕ → Dirs F → Dirs F) → List ℕ → Dirs F → Found F
from_slash load (c ∷ []) dirs = found root_direntry dirs
from_slash load cs dirs = walk_path load b'/' cs dirs

abbrev pub expected :
    {F : Type 0} → (load : ℕ → Dirs F → Dirs F) → (prev : ℕ) → List ℕ → Dirs F → Found F
expected load prev [] dirs = walk_path load prev [] dirs
expected load prev (c ∷ cs) dirs =
    if c == b'/' then from_slash load cs dirs else walk_path load prev (c ∷ cs) dirs

if_true {ℓ} : {A : Type ℓ} (a b : A) (t : Bool) → t ≡ true → (if t then a else b) ≡ a
if_true a b t e = rw e refl

if_false {ℓ} : {A : Type ℓ} (a b : A) (t : Bool) → t ≡ false → (if t then a else b) ≡ b
if_false a b t e = rw e refl

module _ {F : Type 0} (fuel : ℕ) (load : ℕ → Dirs F → Dirs F) (m : Mem) (p : ℕ)
    (dirs : Dirs F) where
  namei_relative :
      (m p == b'/') ≡ false → namei fuel load m p dirs ≡ namei_recursive fuel load m p root_dir dirs
  unfolding namei
  namei_relative t = if_false _ _ _ t

  namei_absolute :
      (m p == b'/') ≡ true
      → (m (p + 1 + 1) == 0) ≡ false
      → namei fuel load m p dirs ≡ namei_recursive fuel load m (p + 1) root_dir dirs
  unfolding namei
  namei_absolute t u = if_true _ _ _ t ∙ if_false _ _ _ u

  pub namei_root :
      (m p == b'/') ≡ true
      → (m (p + 1 + 1) == 0) ≡ true
      → namei fuel load m p dirs ≡ found root_direntry dirs
  unfolding namei
  namei_root t u = if_true _ _ _ t ∙ if_true _ _ _ u

  namei_slash :
      (m p ≡ b'/')
      → (ds : List ℕ) → ds ≢ []
      → IsStr m (p + 1) ds
      → suc (length ds) < name_room
      → suc (length ds) < fuel
      → namei fuel load m p dirs ≡ from_slash load ds dirs
  namei_slash t [] ne str short enough = absurd (ne refl)
  namei_slash t (d ∷ []) ne str short enough =
      namei_root (ground (arith, t)) (ground (arith, str.2))
  namei_slash t (d ∷ e ∷ es) ne str short enough =
      namei_absolute (ground (arith, t)) (ground (arith, str.2.0, str.2.1))
      ∙ namei_recursive-walk fuel load m (p + 1) root_dir dirs (d ∷ e ∷ es) str (omega arith)
          (omega arith)

  -- A slash alone, with more behind its NUL, is looked for in the root directory as ".".
  pub namei_slash_alone :
      (m p == b'/') ≡ true
      → (m (p + 1 + 1) == 0) ≡ false
      → m (p + 1) ≡ 0
      → (dirs root_dir).entries ≡ []
      → 0 < fuel
      → namei fuel load m p dirs ≡ failed enoent dirs
  unfolding find_entry
  namei_slash_alone t u z e some_fuel =
      namei_absolute t u
      ∙ namei_recursive-walk fuel load m (p + 1) root_dir dirs [] z (omega arith) some_fuel
      ∙ rw (e, walk) refl

-- namei() of a path below 256 characters is the walk along the components of the path, each found by
-- its name among the entries of the directory before, which is loaded when it has none; a slash at
-- the end wants a directory. Only a slash and one character lead to the root whatever the character is,
-- and a slash alone is left out, since namei() reads behind its NUL.
pub namei-expected :
    {F : Type 0} (xs : List ℕ) (fuel : ℕ) (load : ℕ → Dirs F → Dirs F) (m : Mem) (p : ℕ)
    (dirs : Dirs F)
    → IsStr m p xs
    → xs ≢ b'/' ∷ []
    → length xs < name_room
    → length xs < fuel
    → namei fuel load m p dirs ≡ expected load (m (p - 1)) xs dirs
namei-expected [] fuel load m p dirs s ne short enough =
    namei_relative fuel load m p dirs (ground (arith, s))
    ∙ namei_recursive-walk fuel load m p root_dir dirs [] s short enough
namei-expected (c ∷ cs) fuel load m p dirs s ne short enough = elim (Bool-cases (c == b'/')) [
  | inl t ↦
      namei_slash fuel load m p dirs (ground (arith, s.0)) cs (λ e. ne (ground arith)) s.2 short
        enough
      ∙ sym (if_true _ _ _ t)
  | inr t ↦
      namei_relative fuel load m p dirs (ground (arith, s.0))
      ∙ namei_recursive-walk fuel load m p root_dir dirs (c ∷ cs) s short enough
      ∙ sym (if_false _ _ _ t)
]
