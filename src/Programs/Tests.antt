-- ===== src/Programs/Tests.antt =====
-- userspace/: the programs on a kernel that serves one file, and on the memory of a path.
use ulmix_i.Base.{
  ℕ, inr, ltb, ◌==◌, if◌then◌else◌, ◌-◌, ◌<◌, ◌≤◌, ◌≡◌, ◌++◌, length, refl, none, some, List, [],
  ◌∷◌, arith, get_elem?,
}
use ulmix_i.Base.Int.{ℤ, pos, negsuc}
use ulmix_i.Base.Memory.{Mem, Holds}
use ulmix_i.Errno.{enosys}
use ulmix_i.LibC.{strlen, strlen_loop}
use ulmix_i.LibC.Messages.{user_strerror}
use ulmix_i.Programs.{
  codes, num, string, message, ulmix, start, and_then, o_rdonly, basename, basename_loop, Request,
  exits, forks, asks_pid, asks_name, reads, writes, prints, opens, closes, waits, executes, Answer,
  Kernel, run,
}
use ulmix_i.Programs.Hexdump.{hexdump}
use ulmix_i.Programs.Coreutils.{ls, coreutils}
use ulmix_i.Programs.Coreutils.Applets.{coreutils-applet}
use ulmix_i.Programs.Init.{init, start_program}
use ulmix_i.Programs.Alone.{Asks, programs-alone}
use ulmix_i.Programs.Hexdump.Served.{IsOutput, Serves, rows_at, Dumped}
use ulmix_i.Programs.Hexdump.Dump.{hexdump-Dumped}

-- A file of 18 bytes: all of them are left, the last two, or none.
data Stage : Type 0 where
  whole tail end : Stage

abbrev last_two : List ℕ
last_two = 254 ∷ 255 ∷ []

abbrev contents : List ℕ
contents = b'A' ∷ b'B' ∷ 2 ∷ 3 ∷ 4 ∷ 5 ∷ 6 ∷ 7 ∷ 8 ∷ 9 ∷ 10 ∷ 11 ∷ 12 ∷ 13 ∷ 14 ∷ 15 ∷ last_two

abbrev left : Stage → List ℕ
left whole = contents
left tail = last_two
left end = []

abbrev buffer_of : List ℕ → Mem
buffer_of bs i = elim (get_elem? bs i) [ none ↦ 0 | some c ↦ c ]

abbrev answer : ℕ → List ℕ → Answer
answer n bs = record { value = pos n; errno = 0; buffer = buffer_of bs }

abbrev kernel : Kernel Stage
kernel w (opens path flags) = some (answer 3 [], whole)
kernel whole (reads fd len) = some (answer 16 contents, tail)
kernel tail (reads fd len) = some (answer 2 last_two, end)
kernel end (reads fd len) = some (answer 0 [], end)
kernel w (exits err) = some (answer 0 [], w)
kernel w forks = some (answer 0 [], w)
kernel w asks_pid = some (answer 0 [], w)
kernel w asks_name = some (answer 0 [], w)
kernel w (writes bytes) = some (answer 0 [], w)
kernel w (prints format args) = some (answer 0 [], w)
kernel w (closes fd) = some (answer 0 [], w)
kernel w (waits pid options) = some (answer 0 [], w)
kernel w (executes path args) = some (answer 0 [], w)

abbrev filename : List ℕ
filename = b'f' ∷ []

abbrev sixteen : List ℕ
sixteen = b'A' ∷ b'B' ∷ 2 ∷ 3 ∷ 4 ∷ 5 ∷ 6 ∷ 7 ∷ 8 ∷ 9 ∷ 10 ∷ 11 ∷ 12 ∷ 13 ∷ 14 ∷ 15 ∷ []

kernel-reading :
    (w : Stage)
    → (a : Answer) × (w' : Stage) × (chunk : List ℕ) × (kernel w (reads (pos 3) 16) ≡ some (a, w'))
      × (a.value ≡ pos (length chunk))
      × Holds a.buffer 0 chunk
      × (left w ≡ chunk ++ left w')
      × (length chunk ≤ 16)
      × (length chunk < 16 → left w' ≡ [])
kernel-reading whole = (
  answer 16 contents,
  tail,
  sixteen,
  refl,
  refl,
  (
    refl,
    (
      refl,
      (
        refl,
        (
          refl,
          (
            refl,
            (
              refl,
              (refl, (refl, (refl, (refl, (refl, (refl, (refl, (refl, (refl, (refl, tt)))))))))),
            ),
          ),
        ),
      ),
    ),
  ),
  refl,
  omega arith,
  λ lt. absurd (omega (arith, lt)),
)
kernel-reading tail = (
  answer 2 last_two,
  end,
  last_two,
  refl,
  refl,
  (refl, (refl, tt)),
  refl,
  omega arith,
  λ lt. refl,
)
kernel-reading end = (answer 0 [], end, [], refl, refl, tt, refl, omega arith, λ lt. refl)

kernel-output :
    (w : Stage) (r : Request)
    → IsOutput r
    → (a : Answer) × (w' : Stage) × (kernel w r ≡ some (a, w')) × (left w' ≡ left w)
kernel-output w (writes bytes) out = (answer 0 [], w, refl, refl)
kernel-output w (prints format args) out = (answer 0 [], w, refl, refl)
kernel-output w (exits err) out = (answer 0 [], w, refl, refl)
kernel-output w forks out = (answer 0 [], w, refl, refl)
kernel-output w asks_pid out = (answer 0 [], w, refl, refl)
kernel-output w asks_name out = (answer 0 [], w, refl, refl)
kernel-output w (reads fd len) out = absurd out
kernel-output w (opens path flags) out = absurd out
kernel-output w (closes fd) out = (answer 0 [], w, refl, refl)
kernel-output w (waits pid options) out = (answer 0 [], w, refl, refl)
kernel-output w (executes path args) out = (answer 0 [], w, refl, refl)

kernel-Serves : Serves kernel left filename 3 contents
kernel-Serves = record {
  opening = λ w. (answer 3 [], whole, refl, refl, refl);
  reading = kernel-reading;
  output = kernel-output;
  closing = λ w. (answer 0 [], w, refl);
}

hexdump-Dumped_example : Dumped kernel (hexdump 2 ([] ∷ filename ∷ [])) end (rows_at 0 2) contents
hexdump-Dumped_example =
    hexdump-Dumped kernel left filename 3 contents kernel-Serves 2 [] [] end (omega arith)
      (omega arith)

-- The path "/bin/ls" at 100.
abbrev path : List ℕ
path = codes "/bin/ls"

abbrev ram : Mem
ram a = if ltb a 100 then 1 else elim (get_elem? path (a - 100)) [ none ↦ 0 | some c ↦ c ]

coreutils-applet_example : coreutils 9 ram 200 1 100 ≡ ls 9 100
coreutils-applet_example =
    coreutils-applet (codes "/bin") (codes "ls") 9 ram 200 1 100 (refl, refl, (refl, refl, tt))
      (
        refl,
        omega arith,
        (
          refl,
          omega arith,
          (
            refl,
            omega arith,
            (
              refl,
              omega arith,
              (refl, omega arith, (refl, omega arith, (refl, omega arith, refl))),
            ),
          ),
        ),
      )
      (inr (omega arith)) (omega arith) (omega arith) (omega arith)

-- A path without a slash: what stands in front of it is read.
basename_in_front :
    basename 9 (λ a. if a == 7 then b'/' else if a == 10 then 0 else b'a') 9 ≡ some 8
unfolding basename basename_loop strlen strlen_loop
basename_in_front = refl

programs-alone_example :
    Asks
      (run (ulmix ram ram) (start (init 500 1)) 0)
      (asks_pid ∷ prints (codes "init should only be run by the kernel\n") [] ∷ exits (pos 1) ∷ [])
    × Asks (run (ulmix ram ram) (start (hexdump 2 ([] ∷ filename ∷ []))) 0) (
        opens filename o_rdonly
        ∷ prints (codes "hexdump: errno %d: cannot open file\n") (num enosys ∷ [])
        ∷ exits (pos 1)
        ∷ [])
    × Asks (run (ulmix ram ram) (start (ls 2 100)) 0) (
        opens (b'.' ∷ []) 32
        ∷ prints (codes "%s: error: %s\n") (string 100 ∷ message (user_strerror enosys) ∷ [])
        ∷ exits (pos 1)
        ∷ [])
programs-alone_example = programs-alone ram ram 0 500 1 2 100 [] filename []

-- A kernel on which init is process 1, and fork() returns in the child, where execve() fails.
abbrev failing : Request → ℤ
failing asks_pid = pos 1
failing (executes file args) = negsuc 0
failing r = pos 0

abbrev child_kernel : Kernel (Unit {0})
child_kernel w r = some (record { value = failing r; errno = 0; buffer = ram }, w)

abbrev executed : List Request → List (List ℕ)
executed [] = []
executed (executes file args ∷ rs) = file ∷ executed rs
executed (r ∷ rs) = executed rs

-- The child goes on with the program of init.
child_goes_on :
    executed (run child_kernel (start (init 500 1)) tt).0
    ≡ codes "/bin/dhcpd" ∷ codes "/bin/ush" ∷ []
unfolding run init start and_then start_program
child_goes_on = refl
