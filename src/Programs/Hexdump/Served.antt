-- ===== src/Programs/Hexdump/Served.antt =====
-- userspace/hexdump/hexdump.c: what a run prints on a kernel that serves the file.
use ulmix_i.Base.{
  ℕ, zero, suc, ◌+◌, ◌<◌, ◌≤◌, ◌≡◌, ◌∙◌, refl, ap, some, List, [], ◌∷◌, ◌++◌, if◌then◌else◌, length,
}
use ulmix_i.Base.Int.{ℤ, pos}
use ulmix_i.Base.Memory.{Holds}
use ulmix_i.Vfs.{same_name}
use ulmix_i.Programs.{
  codes, Arg, num, Request, reads, writes, prints, opens, closes, Answer, Program, call, Kernel,
  run, ended, after, o_rdonly,
}

-- The first argument, if it is a number.
abbrev pub first_number : List Arg → List ℕ
first_number (num n ∷ args) = n ∷ []
first_number args = []

abbrev pub numbers : (format : List ℕ) → Request → List ℕ
numbers format (prints f args) = if same_name f format then first_number args else []
numbers format r = []

-- The numbers that printf() gets with a format.
abbrev pub printed : (format : List ℕ) → List Request → List ℕ
printed format [] = []
printed format (r ∷ rs) = numbers format r ++ printed format rs

abbrev pub address_format : List ℕ
address_format = codes "0x%08lx:  "

abbrev pub byte_format : List ℕ
byte_format = codes "%02x "

abbrev pub IsOutput : Request → Type 0
IsOutput (writes bytes) = Unit {0}
IsOutput (prints format args) = Unit {0}
IsOutput r = ⊥

-- A kernel whose state has the bytes that are left of an open file. open() starts with those of the file; read()
-- gives 16 bytes, or all that are left.
pub record Serves {W : Type 0} (kernel : Kernel W) (left : W → List ℕ) (filename : List ℕ) (fd : ℕ)
    (bs : List ℕ) : Type 0 where
  pub opening :
      (w : W)
      → (a : Answer) × (w' : W) × (kernel w (opens filename o_rdonly) ≡ some (a, w'))
        × (a.value ≡ pos fd)
        × (left w' ≡ bs)
  pub reading :
      (w : W)
      → (a : Answer) × (w' : W) × (chunk : List ℕ) × (kernel w (reads (pos fd) 16) ≡ some (a, w'))
        × (a.value ≡ pos (length chunk))
        × Holds a.buffer 0 chunk
        × (left w ≡ chunk ++ left w')
        × (length chunk ≤ 16)
        × (length chunk < 16 → left w' ≡ [])
  pub output :
      (w : W) (r : Request)
      → IsOutput r
      → (a : Answer) × (w' : W) × (kernel w r ≡ some (a, w')) × (left w' ≡ left w)
  pub closing : (w : W) → (a : Answer) × (w' : W) × (kernel w (closes (pos fd)) ≡ some (a, w'))

-- The addresses of the rows.
abbrev pub rows_at : (offset rows : ℕ) → List ℕ
rows_at offset zero = []
rows_at offset (suc n) = offset ∷ rows_at (offset + 16) n

pub run_call :
    {W A : Type 0} (kernel : Kernel W) (r : Request) (k : Answer → Program A) (w w' : W)
    (a : Answer)
    → kernel w r ≡ some (a, w')
    → run kernel (call r k) w ≡ after r (run kernel (k a) w')
unfolding run
run_call kernel r k w w' a e = rw (e, run) refl

-- From `w` on the program returns 0, with the addresses `offsets` and the bytes `bs` printed.
abbrev pub Dumped : {W : Type 0} → Kernel W → Program ℤ → W → (offsets bs : List ℕ) → Type 0
Dumped kernel program w offsets bs =
    (rs : List Request) × (w' : _) × (run kernel program w ≡ (rs, ended (pos 0), w'))
    × (printed address_format rs ≡ offsets)
    × (printed byte_format rs ≡ bs)

pub Dumped-call :
    {W : Type 0} (kernel : Kernel W) (r : Request) (k : Answer → Program ℤ) (w w' : W) (a : Answer)
    (offsets bs : List ℕ)
    → kernel w r ≡ some (a, w')
    → Dumped kernel (k a) w' offsets bs
    → Dumped kernel (call r k) w (numbers address_format r ++ offsets) (numbers byte_format r ++ bs)
Dumped-call kernel r k w w' a offsets bs e (rs, w'', run_to, addresses, bytes) = (
  r ∷ rs,
  w'',
  run_call kernel r k w w' a e ∙ ap (after r) run_to,
  ap (λ x. numbers address_format r ++ x) addresses,
  ap (λ x. numbers byte_format r ++ x) bytes,
)
