-- ===== src/Shell/Tests.antt =====
-- userspace/ushell/ushell.c on two lines.
use ulmix_i.Base.{ℕ, ◌≡◌, refl, true, List, [], ◌∷◌, arith}
use ulmix_i.Base.Memory.{Mem}
use ulmix_i.Shell.{getline_loop, getline, is_text, Action, run, change_to, run_program, act}
use ulmix_i.Shell.Lines.{IsWord, Line, blank, last_word, word, Got, getline-Line}

abbrev zeros : Mem
zeros a = 0

abbrev cd : List ℕ
cd = b'c' ∷ b'd' ∷ []

abbrev dir : List ℕ
dir = b'/' ∷ b'b' ∷ []

-- "cd  /b\n"
abbrev line : List ℕ
line = b'c' ∷ b'd' ∷ b' ' ∷ b' ' ∷ b'/' ∷ b'b' ∷ 10 ∷ []

abbrev chosen : List ℕ → Action
chosen input = let (argc, rest, m) = getline input zeros in act argc m

changes : chosen line ≡ change_to 1
unfolding getline getline_loop act is_text
changes = refl

-- "ls &\n": the pointer to `&` is not set.
detaches : chosen (b'l' ∷ b's' ∷ b' ' ∷ b'&' ∷ 10 ∷ []) ≡ run true (0 ∷ [])
unfolding getline getline_loop act is_text run_program
detaches = refl

cd-IsWord : IsWord cd
cd-IsWord = (
  omega arith,
  omega arith,
  (
    (omega arith, omega arith, omega arith, omega arith),
    ((omega arith, omega arith, omega arith, omega arith), tt),
  ),
)

dir-IsWord : IsWord dir
dir-IsWord = (
  omega arith,
  omega arith,
  (
    (omega arith, omega arith, omega arith, omega arith),
    ((omega arith, omega arith, omega arith, omega arith), tt),
  ),
)

line-Line : Line line (cd ∷ dir ∷ [])
line-Line = word {w = cd} cd-IsWord (blank (last_word {w = dir} dir-IsWord))

getline-Line_example : Got zeros 0 (cd ∷ dir ∷ []) (getline line zeros)
getline-Line_example = getline-Line zeros line-Line (omega arith)
