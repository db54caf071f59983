-- ===== src/Programs/Alone.antt =====
-- userspace/ and kernel/syscall.c: the programs on the kernel as it is.
use ulmix_i.Base.{ℕ, ◌≡◌, ◌∙◌, refl, ap, List, [], ◌∷◌}
use ulmix_i.Base.Int.{pos}
use ulmix_i.Base.Memory.{Mem}
use ulmix_i.Errno.{enosys}
use ulmix_i.Syscall.{Result}
use ulmix_i.Syscall.Calls.{expected, user_call-expected}
use ulmix_i.LibC.Messages.{user_strerror}
use ulmix_i.Programs.{
  codes, Arg, num, string, message, Request, user_call_of, exits, asks_pid, prints, opens, Answer,
  Program, call, no_return, Run, after, lost, run, start, and_then, ulmix, opendir, o_rdonly,
}
use ulmix_i.Programs.Hexdump.{hexdump}
use ulmix_i.Programs.Coreutils.{ls}
use ulmix_i.Programs.Init.{init}

-- The requests of a program that comes to the end of _start().
abbrev pub Asks : {A : Type 0} → Run ℕ A → List Request → Type 0
Asks r requests = (errno : ℕ) × (r ≡ (requests, lost, errno))

abbrev pub answer_of : Mem → Result → Answer
answer_of buffer res = record { value = res.value; errno = res.errno; buffer = buffer }

run-ulmix :
    {A : Type 0} (behind_table : ℕ → ℕ) (buffer : Mem) (errno : ℕ) (r : Request)
    (k : Answer → Program A)
    → run (ulmix behind_table buffer) (call r k) errno
      ≡ after r (
          run
            (ulmix behind_table buffer)
            (k (answer_of buffer (expected (user_call_of r) errno)))
            (expected (user_call_of r) errno).errno)
unfolding run ulmix
run-ulmix behind_table buffer errno r k =
    rw (user_call-expected behind_table (user_call_of r) errno, run, ulmix) refl

-- A message, and the exit with status 1.
says :
    (behind_table : ℕ → ℕ) (buffer : Mem) (errno : ℕ) (format : List ℕ) (args : List Arg)
    → run {A = Unit {0}}
        (ulmix behind_table buffer)
        (call (prints format args) (λ a. call (exits (pos 1)) (λ b. no_return)))
        errno
      ≡ (prints format args ∷ exits (pos 1) ∷ [], lost, 0xfff0)
unfolding run user_call_of
says behind_table buffer errno format args =
    run-ulmix behind_table buffer errno (prints format args)
      (λ a. call (exits (pos 1)) (λ b. no_return))
    ∙ ap (after (prints format args))
        (run-ulmix behind_table buffer enosys (exits (pos 1)) (λ b. no_return))

-- On the kernel as it is, where every request but that for the process number fails, and exit() comes back: init gets
-- the process number 0 and asks to print that it should be run by the kernel; hexdump with a file name
-- asks to print that it cannot open the file, with errno 38; ls asks to print the message of strerror() for 38. Then
-- each of them asks to exit with status 1, and runs off the end of _start().
pub programs-alone :
    (behind_table : ℕ → ℕ) (buffer : Mem) (errno uts argc fuel program : ℕ) (name filename : List ℕ)
    (argv : List (List ℕ))
    → Asks (run (ulmix behind_table buffer) (start (init uts argc)) errno) (
        asks_pid ∷ prints (codes "init should only be run by the kernel\n") [] ∷ exits (pos 1) ∷ [])
      × Asks
          (run (ulmix behind_table buffer) (start (hexdump fuel (name ∷ filename ∷ argv))) errno)
          (opens filename o_rdonly
            ∷ prints (codes "hexdump: errno %d: cannot open file\n") (num enosys ∷ [])
            ∷ exits (pos 1)
            ∷ [])
      × Asks (run (ulmix behind_table buffer) (start (ls fuel program)) errno) (
          opens (b'.' ∷ []) 32
          ∷ prints (codes "%s: error: %s\n") (string program ∷ message (user_strerror enosys) ∷ [])
          ∷ exits (pos 1)
          ∷ [])
unfolding run start init hexdump ls and_then user_call_of opendir
programs-alone behind_table buffer errno uts argc fuel program name filename argv = (
  (
    0xfff0,
    run-ulmix behind_table buffer errno asks_pid _
        ∙ ap (after asks_pid)
            (says behind_table buffer errno (codes "init should only be run by the kernel\n") []),
  ),
  (
    0xfff0,
    run-ulmix behind_table buffer errno (opens filename o_rdonly) _
        ∙ ap (after (opens filename o_rdonly)) (
            says behind_table buffer enosys (codes "hexdump: errno %d: cannot open file\n")
              (num enosys ∷ [])),
  ),
  (
    0xfff0,
    run-ulmix behind_table buffer errno (opens (b'.' ∷ []) 32) _
        ∙ ap (after (opens (b'.' ∷ []) 32)) (
            says behind_table buffer enosys (codes "%s: error: %s\n")
              (string program ∷ message (user_strerror enosys) ∷ [])),
  ),
)
