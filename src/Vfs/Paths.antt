-- ===== src/Vfs/Paths.antt =====
-- kernel/fs/vfs.c: namei() walks along the components of the path.
use ulmix_i.Base.{
  ℕ, zero, suc, ◌+◌, ◌-◌, ◌<◌, ◌≤◌, ◌≡◌, ◌∙◌, sym, ap, inl, inr, refl, Bool, true, false, not, ◌&&◌,
  Option, none, some, List, [], ◌∷◌, arith, ltb, ◌==◌, if◌then◌else◌, length, Bool-cases,
}
use ulmix_i.Base.Memory.{Mem, IsStr}
use ulmix_i.Errno.{enoent, enotdir}
use ulmix_i.Vfs.{
  Direntry, Dirs, Found, found, failed, overflow, strccpy, find_entry, is_dir, or_dot, is_null,
  same_name, get_direntries, name_room, namei_recursive,
}

-- What stands in front of the first slash, and behind it.
abbrev pub first : List ℕ → List ℕ
first [] = []
first (c ∷ cs) = if c == b'/' then [] else c ∷ first cs

abbrev after : List ℕ → List ℕ
after [] = []
after (c ∷ cs) = if c == b'/' then cs else after cs

-- The first component of a path and the others. A last slash does not begin a component.
abbrev later : List ℕ → List ℕ × List (List ℕ) → List (List ℕ)
later [] p = []
later (c ∷ cs) p = p.0 ∷ p.1

abbrev pub pieces : List ℕ → List ℕ × List (List ℕ)
pieces [] = ([], [])
pieces (c ∷ cs) =
    if c == b'/' then ([], later cs (pieces cs)) else (c ∷ (pieces cs).0, (pieces cs).1)

-- Whether a path ends in a slash, with the character in front of it.
abbrev pub ends : ℕ → List ℕ → Bool
ends prev [] = prev == b'/'
ends prev (c ∷ cs) = ends c cs

-- The texts are the same, character by character.
abbrev pub same_text : List ℕ → List ℕ → Bool
same_text [] ys = elim ys [ [] ↦ true | y ∷ ys ↦ false ]
same_text (x ∷ xs) ys = elim ys [ [] ↦ false | y ∷ ys ↦ if x == y then same_text xs ys else false ]

-- The first entry with a name.
abbrev pub entry_named : List ℕ → List Direntry → Option Direntry
entry_named name [] = none
entry_named name (entry ∷ entries) =
    if same_text entry.name name then some entry else entry_named name entries

-- The directories, once the filesystem has been asked for the entries of `dir` if it has none.
abbrev pub with_entries : {F : Type 0} → (load : ℕ → Dirs F → Dirs F) → (dir : ℕ) → Dirs F → Dirs F
with_entries load dir dirs = elim (dirs dir).entries [ [] ↦ load dir dirs | entry ∷ entries ↦ dirs ]

-- The walk through the tree that a path stands for.
abbrev pub walk :
    {F : Type 0}
    → (load : ℕ → Dirs F → Dirs F) → (slash : Bool) → List ℕ
    → List (List ℕ)
    → ℕ
    → Dirs F
    → Found F
walk load slash name [] dir dirs = elim (entry_named (or_dot name) (dirs dir).entries) [
  | none ↦ failed enoent dirs
  | some entry ↦ if slash && not (is_dir entry) then failed enotdir dirs else found entry dirs
]
walk load slash name (next ∷ more) dir dirs = elim (entry_named (or_dot name) (dirs dir).entries) [
  | none ↦ failed enoent dirs
  | some entry ↦
      if not (is_dir entry)
      then failed enoent dirs
      else walk load slash next more entry.directory (with_entries load entry.directory dirs)
]

same_name-same_text : (xs ys : List ℕ) → same_name xs ys ≡ same_text xs ys
same_name-same_text [] [] = refl
same_name-same_text [] (y ∷ ys) = refl
same_name-same_text (x ∷ xs) [] = refl
same_name-same_text (x ∷ xs) (y ∷ ys) = rw (same_name-same_text xs ys) (ground arith)

pub find_entry-entry_named :
    (name : List ℕ) (entries : List Direntry) → find_entry name entries ≡ entry_named name entries
unfolding find_entry
find_entry-entry_named name [] = refl
find_entry-entry_named name (entry ∷ entries) =
    rw (same_name-same_text entry.name name, find_entry-entry_named name entries) refl

get_direntries-with_entries :
    {F : Type 0} (load : ℕ → Dirs F → Dirs F) (dir : ℕ) (dirs : Dirs F)
    → get_direntries load dir dirs ≡ with_entries load dir dirs
unfolding get_direntries
get_direntries-with_entries load dir dirs = go (dirs dir).entries
  where
    go :
        (entries : List Direntry)
        → (if is_null entries then load dir dirs else dirs)
          ≡ elim entries [ [] ↦ load dir dirs | entry ∷ entries ↦ dirs ]
    go [] = refl
    go (entry ∷ entries) = refl

pieces-first : (xs : List ℕ) → pieces xs ≡ (first xs, later (after xs) (pieces (after xs)))
pieces-first [] = refl
pieces-first (c ∷ cs) = elim (Bool-cases (c == b'/')) [
  | inl t ↦ simp t
  | inr t ↦ simp (t, pieces-first cs)
]

length-first : (xs : List ℕ) → length (first xs) ≤ length xs
length-first [] = omega arith
length-first (c ∷ cs) = ground (arith, length-first cs)

length-after : (xs : List ℕ) → length (after xs) ≤ length xs - 1
length-after [] = omega arith
length-after (c ∷ cs) = ground (arith, length-after cs)

-- Where strccpy() stops.
abbrev Stop : ℕ → Mem → (p : ℕ) → List ℕ → Type 0
Stop fuel m p xs =
    (rem : ℕ) × (strccpy fuel m p b'/' ≡ some (first xs, rem))
    × IsStr m rem (after xs)
    × (ends (m (p - 1)) xs ≡ ends (m (rem - 1)) (after xs))

strccpy-Stop :
    (xs : List ℕ) (fuel : ℕ) (m : Mem) (p : ℕ) → IsStr m p xs → length xs < fuel → Stop fuel m p xs
unfolding strccpy
strccpy-Stop xs zero m p s enough = absurd (omega arith)
strccpy-Stop [] (suc fuel) m p s enough = (p, simp s, s, refl)
strccpy-Stop (c ∷ cs) (suc fuel) m p s enough = elim (Bool-cases (c == b'/')) [
  | inl t ↦ (p + 1, ground (arith, s.0, s.1), simp t s.2, ground (arith, s.0))
  | inr t ↦ go t (strccpy-Stop cs fuel m (p + 1) s.2 (omega arith))
]
  where
    go : (c == b'/') ≡ false → Stop fuel m (p + 1) cs → Stop (suc fuel) m p (c ∷ cs)
    go t (rem, e, str, last) = (rem, ground (arith, s.0, s.1), simp t str, ground (arith, s.0))

abbrev pub Walks : {F : Type 0} → ℕ → (load : ℕ → Dirs F → Dirs F) → Mem → Type 0
Walks {F = F} fuel load m =
    (p dir : ℕ) (dirs : Dirs F) (xs : List ℕ)
    → IsStr m p xs
    → length xs < name_room
    → length xs < fuel
    → namei_recursive fuel load m p dir dirs
      ≡ walk load (ends (m (p - 1)) xs) (pieces xs).0 (pieces xs).1 dir dirs

module _ {F : Type 0} (fuel : ℕ) (load : ℕ → Dirs F → Dirs F) (m : Mem)
    (ih : Walks fuel load m) where
  -- From the stop behind a component on, `ys` is left of the path.
  walk_on :
      (p dir : ℕ) (dirs : Dirs F) (name : List ℕ) (rem : ℕ) (ys : List ℕ) (hit : Option Direntry)
      → find_entry (or_dot name) (dirs dir).entries ≡ hit
      → strccpy (suc fuel) m p b'/' ≡ some (name, rem)
      → ltb (length name) name_room ≡ true
      → IsStr m rem ys
      → length ys < name_room
      → length ys ≤ fuel - 1
      → namei_recursive (suc fuel) load m p dir dirs
        ≡ walk load (ends (m (rem - 1)) ys) name (later ys (pieces ys)) dir dirs
  unfolding namei_recursive
  walk_on p dir dirs name rem [] none f e fits str short small = rw (
    e,
    f,
    sym (find_entry-entry_named (or_dot name) (dirs dir).entries) ∙ f,
    fits,
    namei_recursive,
    walk,
  )
  walk_on p dir dirs name rem [] (some entry) f e fits str short small = rw (
    e,
    f,
    sym (find_entry-entry_named (or_dot name) (dirs dir).entries) ∙ f,
    fits,
    str,
    namei_recursive,
    walk,
  )
  walk_on p dir dirs name rem (y ∷ ys) none f e fits str short small = rw (
    e,
    f,
    sym (find_entry-entry_named (or_dot name) (dirs dir).entries) ∙ f,
    fits,
    namei_recursive,
    walk,
  )
  walk_on p dir dirs name rem (y ∷ ys) (some entry) f e fits str short small = rw (
    e,
    f,
    sym (find_entry-entry_named (or_dot name) (dirs dir).entries) ∙ f,
    fits,
    nonzero,
    next,
    namei_recursive,
    walk,
  )
    where
      nonzero : (m rem == 0) ≡ false
      nonzero = ground (arith, str.0, str.1)

      next :
          namei_recursive fuel load m rem entry.directory (get_direntries load entry.directory dirs)
          ≡ walk load
              (ends y ys)
              (pieces (y ∷ ys)).0
              (pieces (y ∷ ys)).1
              entry.directory
              (with_entries load entry.directory dirs)
      next =
          ih rem entry.directory (get_direntries load entry.directory dirs) (y ∷ ys) str short
            (omega arith)
          ∙ ap (walk load (ends y ys) (pieces (y ∷ ys)).0 (pieces (y ∷ ys)).1 entry.directory)
              (get_direntries-with_entries load entry.directory dirs)

  walk-Stop :
      (p dir : ℕ) (dirs : Dirs F) (xs : List ℕ)
      → length xs < name_room
      → length xs < suc fuel
      → Stop (suc fuel) m p xs
      → namei_recursive (suc fuel) load m p dir dirs
        ≡ walk load (ends (m (p - 1)) xs) (pieces xs).0 (pieces xs).1 dir dirs
  walk-Stop p dir dirs xs short enough (rem, e, str, last) =
      rw (last, pieces-first xs)
        (walk_on p dir dirs (first xs) rem (after xs) _ refl e (ground (arith, length-first xs)) str
          (omega (arith, length-after xs)) (omega (arith, length-after xs)))

pub namei_recursive-walk :
    {F : Type 0} (fuel : ℕ) (load : ℕ → Dirs F → Dirs F) (m : Mem) → Walks fuel load m
namei_recursive-walk zero load m p dir dirs xs s short enough = absurd (omega arith)
namei_recursive-walk (suc fuel) load m p dir dirs xs s short enough =
    walk-Stop fuel load m (namei_recursive-walk fuel load m) p dir dirs xs short enough
      (strccpy-Stop xs (suc fuel) m p s enough)

-- A component of 256 characters or more is written behind the end of `current_name`, with any fuel above
-- the length of the path.
namei_recursive-overflow :
    {F : Type 0} (xs : List ℕ) (fuel : ℕ) (load : ℕ → Dirs F → Dirs F) (m : Mem) (p dir : ℕ)
    (dirs : Dirs F)
    → IsStr m p xs
    → name_room ≤ length (first xs)
    → length xs < fuel
    → namei_recursive fuel load m p dir dirs ≡ overflow
unfolding namei_recursive
namei_recursive-overflow xs zero load m p dir dirs s long enough = absurd (omega arith)
namei_recursive-overflow xs (suc fuel) load m p dir dirs s long enough =
    go (strccpy-Stop xs (suc fuel) m p s enough)
  where
    no_room : ltb (length (first xs)) name_room ≡ false
    no_room = ground arith

    at :
        (rem : ℕ) (hit : Option Direntry)
        → find_entry (or_dot (first xs)) (dirs dir).entries ≡ hit
        → strccpy (suc fuel) m p b'/' ≡ some (first xs, rem)
        → namei_recursive (suc fuel) load m p dir dirs ≡ overflow
    at rem none f e = rw (e, f, no_room, namei_recursive)
    at rem (some entry) f e = rw (e, f, no_room, namei_recursive)

    go : Stop (suc fuel) m p xs → namei_recursive (suc fuel) load m p dir dirs ≡ overflow
    go (rem, e, str, last) = at rem _ refl e
