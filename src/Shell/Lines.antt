-- ===== src/Shell/Lines.antt =====
-- userspace/ushell/ushell.c: the words of a line are the arguments.
use mathlib.Core.Path.{subst}
use ulmix_i.Base.{
  ℕ, ◌+◌, ◌*◌, ◌<◌, ◌≤◌, ◌≡◌, ◌≢◌, ◌∙◌, ◌⊎◌, inl, inr, refl, ap, false, List, [], ◌∷◌, ◌++◌, arith,
  ◌==◌, if◌then◌else◌, length,
}
use ulmix_i.Base.Memory.{Mem, write, IsStr, IsStr-frame}
use ulmix_i.Shell.{getline_loop, getline}

-- A character of a word.
abbrev pub IsLetter : ℕ → Type 0
IsLetter c = (c ≢ 0) × (c ≢ 0xff) × (c ≢ b' ') × (c ≢ 10)

abbrev pub AllLetters : List ℕ → Type 0
AllLetters [] = Unit {0}
AllLetters (c ∷ w) = IsLetter c × AllLetters w

-- A word that fits into a row.
abbrev pub IsWord : List ℕ → Type 0
IsWord w = (0 < length w) × (length w < 16) × AllLetters w

-- The lines, and the words in them: blanks, words with a blank behind, and the end behind a word or not.
pub data Line : List ℕ → List (List ℕ) → Type 0 where
  end_line : Line (10 ∷ []) []
  blank : {s : List ℕ} {ws : List (List ℕ)} → Line s ws → Line (b' ' ∷ s) ws
  last_word : {w : List ℕ} → IsWord w → Line (w ++ (10 ∷ [])) (w ∷ [])
  word :
      {w s : List ℕ} {ws : List (List ℕ)} → IsWord w → Line s ws → Line (w ++ (b' ' ∷ s)) (w ∷ ws)

-- The words stand as strings in the rows from row `k` on.
abbrev pub Rows : Mem → (k : ℕ) → List (List ℕ) → Type 0
Rows m k [] = Unit {0}
Rows m k (w ∷ ws) = IsStr m (k * 16) w × Rows m (k + 1) ws

-- What the loop leaves from row `k` on; it writes in these rows only.
abbrev pub Got : Mem → (k : ℕ) → List (List ℕ) → ℕ × List ℕ × Mem → Type 0
Got m k ws r =
    (m' : Mem) × (r ≡ (k + length ws, [], m'))
    × Rows m' k ws
    × ((a : ℕ) → (a < k * 16) ⊎ (1024 ≤ a) → m' a ≡ m a)

-- The memory with the letters of a word written.
abbrev spell : Mem → (p : ℕ) → List ℕ → Mem
spell m p [] = m
spell m p (c ∷ w) = spell (write m p c) (p + 1) w

getline_loop_letter :
    (c : ℕ) (s : List ℕ) (m : Mem) (k i : ℕ)
    → IsLetter c
    → getline_loop (c ∷ s) m k i ≡ getline_loop s (write m (k * 16 + i) c) k (i + 1)
unfolding getline_loop
getline_loop_letter c s m k i (nz, nf, nb, nn) = rw (a, b, d, getline_loop) refl
  where
    a : (c == 0xff) ≡ false
    a = ground arith

    b : (c == b' ') ≡ false
    b = ground arith

    d : (c == 10) ≡ false
    d = ground arith

getline_loop-spell :
    (w s : List ℕ) (m : Mem) (k i : ℕ)
    → AllLetters w
    → getline_loop (w ++ s) m k i ≡ getline_loop s (spell m (k * 16 + i) w) k (i + length w)
getline_loop-spell [] s m k i l = ap (getline_loop s m k) {x = i} (omega arith)
getline_loop-spell (c ∷ w) s m k i (is, l) =
    getline_loop_letter c (w ++ s) m k i is
    ∙ getline_loop-spell w s (write m (k * 16 + i) c) k (i + 1) l
    ∙ ap (λ p. getline_loop s (spell (write m (k * 16 + i) c) p w) k (i + 1 + length w))
        {x = k * 16 + (i + 1)} {y = k * 16 + i + 1} (omega arith)
    ∙ ap (getline_loop s (spell (write m (k * 16 + i) c) (k * 16 + i + 1) w) k)
        {x = i + 1 + length w} (omega arith)

spell_outside :
    (w : List ℕ) (m : Mem) (p a : ℕ) → (a < p) ⊎ (p + length w ≤ a) → spell m p w a ≡ m a
spell_outside [] m p a o = refl
spell_outside (c ∷ w) m p a (inl o) =
    spell_outside w (write m p c) (p + 1) a (inl (omega arith)) ∙ ground arith
spell_outside (c ∷ w) m p a (inr o) =
    spell_outside w (write m p c) (p + 1) a (inr (omega arith)) ∙ ground arith

-- A word with its NUL.
abbrev with_nul : Mem → (p : ℕ) → List ℕ → Mem
with_nul m p w = write (spell m p w) (p + length w) 0

with_nul-IsStr : (w : List ℕ) (m : Mem) (p : ℕ) → AllLetters w → IsStr (with_nul m p w) p w
with_nul-IsStr [] m p l = ground arith
with_nul-IsStr (c ∷ w) m p (is, l) = (
  first,
  is.0,
  subst (λ q. IsStr (write (spell (write m p c) (p + 1) w) q 0) (p + 1) w) {x = p + 1 + length w}
      (omega arith) (with_nul-IsStr w (write m p c) (p + 1) l),
)
  where
    first : with_nul m p (c ∷ w) p ≡ c
    first = ground (arith, spell_outside w (write m p c) (p + 1) p (inl (omega arith)))

with_nul_outside :
    (w : List ℕ) (m : Mem) (p a : ℕ) → (a < p) ⊎ (p + length w < a) → with_nul m p w a ≡ m a
with_nul_outside w m p a (inl o) = ground (arith, spell_outside w m p a (inl o))
with_nul_outside w m p a (inr o) = ground (arith, spell_outside w m p a (inr (omega arith)))

getline_loop_blank :
    (s : List ℕ) (m : Mem) (k i : ℕ)
    → getline_loop (b' ' ∷ s) m k i
      ≡ getline_loop s (write m (k * 16 + i) 0) (if i == 0 then k else k + 1) 0
unfolding getline_loop
getline_loop_blank s m k i = refl

getline_loop_newline :
    (m : Mem) (k i : ℕ)
    → getline_loop (10 ∷ []) m k i ≡ ((if i == 0 then k else k + 1), [], write m (k * 16 + i) 0)
unfolding getline_loop
getline_loop_newline m k i = refl

-- Behind a word that begins a row.
row_of :
    (w s : List ℕ) (m : Mem) (k : ℕ)
    → AllLetters w
    → getline_loop (w ++ s) m k 0 ≡ getline_loop s (spell m (k * 16) w) k (length w)
row_of w s m k l =
    getline_loop-spell w s m k 0 l
    ∙ ap (λ p. getline_loop s (spell m p w) k (0 + length w)) {x = k * 16 + 0} (omega arith)
    ∙ ap (getline_loop s (spell m (k * 16) w) k) {x = 0 + length w} (omega arith)

some_letters : (w : List ℕ) (k : ℕ) → 0 < length w → (if length w == 0 then k else k + 1) ≡ k + 1
some_letters w k pos = ground arith

Got-word :
    (w : List ℕ) (ws : List (List ℕ)) (m : Mem) (k : ℕ) (r : ℕ × List ℕ × Mem)
    → IsWord w
    → k < 64
    → Got (with_nul m (k * 16) w) (k + 1) ws r
    → Got m k (w ∷ ws) r
Got-word w ws m k r (some_letter, short, l) room (m', e, rows, kept) = (
  m',
  e ∙ ap (λ n. (n, [], m')) {x = k + 1 + length ws} (omega arith),
  (
    IsStr-frame (with_nul m (k * 16) w) m' (k * 16) w (with_nul-IsStr w m (k * 16) l)
        (λ a lo hi. kept a (inl (omega arith))),
    rows,
  ),
  λ a o. kept a (wider o) ∙ with_nul_outside w m (k * 16) a (apart o),
)
  where
    wider : {a : ℕ} → (a < k * 16) ⊎ (1024 ≤ a) → (a < (k + 1) * 16) ⊎ (1024 ≤ a)
    wider (inl h) = inl (omega arith)
    wider (inr h) = inr h

    apart : {a : ℕ} → (a < k * 16) ⊎ (1024 ≤ a) → (a < k * 16) ⊎ (k * 16 + length w < a)
    apart (inl h) = inl h
    apart (inr h) = inr (omega arith)

Got-nothing : (m : Mem) (k : ℕ) → Got m k [] (k, [], m)
Got-nothing m k = (m, ap (λ n. (n, [], m)) {x = k} (omega arith), tt, λ a o. refl)

Got-nul :
    (ws : List (List ℕ)) (m : Mem) (k : ℕ) (r : ℕ × List ℕ × Mem)
    → k < 64
    → Got (write m (k * 16 + 0) 0) k ws r
    → Got m k ws r
Got-nul ws m k r room (m', e, rows, kept) = (m', e, rows, λ a o. kept a o ∙ other o)
  where
    other : {a : ℕ} → (a < k * 16) ⊎ (1024 ≤ a) → write m (k * 16 + 0) 0 a ≡ m a
    other (inl h) = ground arith
    other (inr h) = ground arith

Line-Got :
    {input : List ℕ} {ws : List (List ℕ)}
    → Line input ws
    → (m : Mem) (k : ℕ) → k + length ws < 64
    → Got m k ws (getline_loop input m k 0)
Line-Got end_line m k room =
    Got-nul [] m k (getline_loop (10 ∷ []) m k 0) (omega arith)
      (rw (getline_loop_newline m k 0) (Got-nothing (write m (k * 16 + 0) 0) k))
Line-Got (blank {s = s} {ws = ws} l) m k room =
    Got-nul ws m k _ (omega arith)
      (rw (getline_loop_blank s m k 0) (Line-Got l (write m (k * 16 + 0) 0) k room))
Line-Got (last_word {w = w} is) m k room = Got-word w [] m k _ is (omega arith) (
    rw
      (
        row_of w (10 ∷ []) m k is.2,
        getline_loop_newline (spell m (k * 16) w) k (length w),
        some_letters w k is.0,
      )
      (Got-nothing (with_nul m (k * 16) w) (k + 1)))
Line-Got (word {w = w} {s = s} {ws = ws} is l) m k room = Got-word w ws m k _ is (omega arith) (
    rw
      (
        row_of w (b' ' ∷ s) m k is.2,
        getline_loop_blank s (spell m (k * 16) w) k (length w),
        some_letters w k is.0,
      )
      (Line-Got l (with_nul m (k * 16) w) (k + 1) (omega arith)))

-- getline() splits a line into its words: for any line of words of at most 15 characters, with any blanks
-- between them, of less than 64 words, it returns the number of words, and row `i` of `argv` is the string
-- of word `i`. All memory behind the rows is as it was.
pub getline-Line :
    {input : List ℕ} {ws : List (List ℕ)} (m : Mem)
    → Line input ws
    → length ws < 64
    → Got m 0 ws (getline input m)
unfolding getline
getline-Line m l room = Line-Got l m 0 (omega arith)
