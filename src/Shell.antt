-- ===== src/Shell.antt =====
-- userspace/ushell/ushell.c: reading a command line and choosing what to do. What is typed is a list of bytes;
-- the rows of `argvp`, of 16 bytes each, stand at address 0, and a write behind the 64 rows is one to other
-- memory.
pub mod Lines
mod Tests
use ulmix_i.Base.{
  ℕ, zero, suc, ◌+◌, ◌-◌, ◌*◌, Bool, true, false, not, ◌&&◌, ◌||◌, List, [], ◌∷◌, ltb, ◌==◌,
  if◌then◌else◌,
}
use ulmix_i.Base.Memory.{Mem, write}

abbrev pub arg_max : ℕ
arg_max = 16

abbrev pub arg_length : ℕ
arg_length = 64

-- The loop of getline(): how many arguments there are, what is left of the input, and the memory. The end of
-- the input is EOF, as is a byte that is -1 in a `char`.
pub getline_loop : List ℕ → Mem → (argc argc_ind : ℕ) → ℕ × List ℕ × Mem
getline_loop [] m argc argc_ind = (argc, [], m)
getline_loop (c ∷ s) m argc argc_ind =
    let end_word = write m (argc * arg_max + argc_ind) 0 in
    let argc' = if argc_ind == 0 then argc else argc + 1 in
    let next = getline_loop s end_word argc' 0 in
    let more = getline_loop s (write m (argc * arg_max + argc_ind) c) argc (argc_ind + 1) in
    if c == 0xff
    then (argc, s, m)
    else if c == b' '
    then next
    else if c == 10
    then (argc', s, end_word)
    else more

pub getline : List ℕ → Mem → ℕ × List ℕ × Mem
unfolding getline_loop
getline input m = getline_loop input m 0 0

-- `strcmp(p, text) == 0`, for a text of the program.
unfoldable pub is_text : Mem → (p : ℕ) → (text : List ℕ) → Bool
is_text m p [] = m p == 0
is_text m p (c ∷ text) = let rest = is_text m (p + 1) text in m p == c && rest

-- What main() does with a line. `run` starts a program with the rows of the arguments, and waits for it
-- unless it is detached; `wild` writes behind the 16 pointers of `execve_argv`.
pub data Action : Type 0 where
  nothing leave kheapdump change_home pwd wild : Action
  change_to : (row : ℕ) → Action
  run : (detached : Bool) → (rows : List ℕ) → Action

-- The rows `i` to `argc - 1`.
abbrev pub rows_from : (i n : ℕ) → List ℕ
rows_from i zero = []
rows_from i (suc n) = i ∷ rows_from (i + 1) n

-- Only the last argument can be `&`; its pointer is then not set, and NULL is written behind it.
pub run_program : (argc : ℕ) → Mem → Action
unfolding is_text
run_program argc m =
    let detached = is_text m ((argc - 1) * arg_max) (b'&' ∷ []) in
    if ltb argc arg_max
    then run detached (rows_from 0 (if detached then argc - 1 else argc))
    else wild

pub act : (argc : ℕ) → Mem → Action
unfolding run_program
act argc m =
    if argc == 0
    then nothing
    else if is_text m 0 (b'e' ∷ b'x' ∷ b'i' ∷ b't' ∷ [])
    then leave
    else if is_text m 0 (b'k' ∷ b'h' ∷ b'e' ∷ b'a' ∷ b'p' ∷ [])
    then kheapdump
    else if is_text m 0 (b'c' ∷ b'd' ∷ [])
    then (if ltb argc 2 then change_home else change_to 1)
    else if is_text m 0 (b'p' ∷ b'w' ∷ b'd' ∷ [])
    then pwd
    else run_program argc m
