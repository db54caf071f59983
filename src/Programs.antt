-- ===== src/Programs.antt =====
-- The programs under userspace/, and the functions of userspace/stdlib that they call: crt0.c, stdio.c, dirent.c,
-- malloc.c, libgen.c. A program is what it asks the kernel for, one request after the other; the kernel is a
-- parameter.
pub mod Hexdump
pub mod Coreutils
pub mod Init
pub mod Alone
mod Tests
pub use ulmix_i.Base.Text.{codes}
use Prim.Native.String.{String}
use ulmix_i.Base.{ℕ, zero, suc, ◌+◌, ◌*◌, Option, none, some, List, [], ◌∷◌, ◌==◌, if◌then◌else◌}
use ulmix_i.Base.Int.{ℤ, pos, negsuc, is_negative, lt_nat}
use ulmix_i.Base.Bits.{u32}
use ulmix_i.Errno.{enosys}
use ulmix_i.Base.Memory.{Mem}
use ulmix_i.LibC.{strlen}
use ulmix_i.LibC.Messages.{Message}
use ulmix_i.Syscall.{
  UserCall, user_call, exit, fork, read, write, open_file, close, waitpid, getpid, uname, execve,
}

-- An argument of printf(); `string` has the address of a text.
pub data Arg : Type 0 where
  num : ℕ → Arg
  integer : ℤ → Arg
  chars : List ℕ → Arg
  string : (address : ℕ) → Arg
  message : Message → Arg

-- A system call with its arguments. `prints` is the write() that ends printf(), with what printf() was given;
-- sprintf() is that of UserC. It and `writes` go to file 0.
pub data Request : Type 0 where
  exits : (err : ℤ) → Request
  forks asks_pid asks_name : Request
  reads : (fd : ℤ) → (len : ℕ) → Request
  writes : (bytes : List ℕ) → Request
  prints : (format : List ℕ) → (args : List Arg) → Request
  opens : (path : List ℕ) → (flags : ℕ) → Request
  closes : (fd : ℤ) → Request
  waits : (pid : ℤ) → (options : ℕ) → Request
  executes : (filename : List ℕ) → (args : List (List ℕ)) → Request

pub user_call_of : Request → UserCall
user_call_of (exits err) = exit
user_call_of forks = fork
user_call_of asks_pid = getpid
user_call_of asks_name = uname
user_call_of (reads fd len) = read
user_call_of (writes bytes) = write
user_call_of (prints format args) = write
user_call_of (opens path flags) = open_file
user_call_of (closes fd) = close
user_call_of (waits pid options) = waitpid
user_call_of (executes filename args) = execve

-- What the call returns, `errno` behind it, and the buffer that was passed to it.
pub record Answer : Type 0 where
  pub value : ℤ
  pub errno : ℕ
  pub buffer : Mem

-- A program that returns an `A`, unless it runs out of fuel, uses an address outside of its objects, or comes to
-- the end of _start(), which has no address to return to.
pub data Program (A : Type 0) : Type 0 where
  returns : A → Program A
  unfinished wild_access no_return : Program A
  call : Request → (Answer → Program A) → Program A

pub and_then : {A B : Type 0} → Program A → (A → Program B) → Program B
and_then (returns x) next = next x
and_then unfinished next = unfinished
and_then wild_access next = wild_access
and_then no_return next = no_return
and_then (call r k) next = call r (λ a. and_then (k a) next)

-- How a program ends: `lost` behind _start(), `crashed` when the kernel does not come back from a call.
pub data Ended (A : Type 0) : Type 0 where
  ended : A → Ended A
  out_of_fuel wild lost crashed : Ended A

-- A kernel with the state `W`.
abbrev pub Kernel : Type 0 → Type 0
Kernel W = W → Request → Option (Answer × W)

-- A run: the requests, the end, and the state of the kernel.
abbrev pub Run : Type 0 → Type 0 → Type 0
Run W A = List Request × Ended A × W

abbrev pub after : {W A : Type 0} → Request → Run W A → Run W A
after r (rs, e, w) = (r ∷ rs, e, w)

pub run : {W A : Type 0} → Kernel W → Program A → W → Run W A
run kernel (returns x) w = ([], ended x, w)
run kernel unfinished w = ([], out_of_fuel, w)
run kernel wild_access w = ([], wild, w)
run kernel no_return w = ([], lost, w)
run kernel (call r k) w = elim (kernel w r) [
  | none ↦ (r ∷ [], crashed, w)
  | some (a, w') ↦ after r (run kernel (k a) w')
]

-- _start(): exit() with what main() returns. When that comes back, the end of the function is reached.
pub start : Program ℤ → Program (Unit {0})
unfolding and_then
start main = and_then main (λ ret. call (exits ret) (λ a. no_return))

abbrev pub printf : {A : Type 0} → (format : String) → List Arg → Program A → Program A
printf format args next = call (prints (codes format) args) (λ a. next)

abbrev pub puts : {A : Type 0} → List ℕ → Program A → Program A
puts s next = call (writes s) (λ a. next)

abbrev pub putchar : {A : Type 0} → ℕ → Program A → Program A
putchar c next = call (writes (c ∷ [])) (λ a. next)

abbrev pub o_rdonly : ℕ
o_rdonly = 0

abbrev pub o_rdwr : ℕ
o_rdwr = 4

abbrev pub o_directory : ℕ
o_directory = 32

-- Of any size.
pub malloc : (size : ℕ) → ℕ
malloc size = 0

-- The product is that of the machine.
pub calloc : (nmemb size : ℕ) → ℕ
unfolding malloc
calloc nmemb size = malloc (u32 (nmemb * size))

pub realloc : (ptr size : ℕ) → ℕ
realloc ptr size = 0

-- A `char`; EOF is -1.
pub getchar : Program ℕ
getchar =
    call (reads (pos 0) 1) (λ a. if lt_nat a.value 1 then returns 0xff else returns (a.buffer 0))

-- waitpid() for any process.
pub wait : Program ℤ
wait = call (waits (negsuc 0) 0) (λ a. returns a.value)

-- basename() looks for a slash from the last character down, and stops at a NUL. `none` is below address 0.
unfoldable pub basename_loop : Mem → (pathname a : ℕ) → Option ℕ
basename_loop m pathname zero = none
basename_loop m pathname (suc a) =
    let rest = basename_loop m pathname a in
    if m a == 0 then some pathname else if m a == b'/' then some (a + 1) else rest

unfoldable pub basename : ℕ → Mem → (pathname : ℕ) → Option ℕ
unfolding basename_loop
basename fuel m pathname = elim (strlen fuel m pathname) [
  | none ↦ none
  | some n ↦ basename_loop m pathname (pathname + n)
]

-- The DIR, and `errno`. The structure is written although malloc() may return NULL.
pub opendir : (name : List ℕ) → Program (ℕ × ℕ)
unfolding malloc
opendir name = call (opens name (o_rdonly + o_directory)) (λ a.
    if is_negative a.value
    then returns (0, a.errno)
    else if malloc 4 == 0
    then wild_access
    else returns (malloc 4, a.errno))

-- The name in the next entry; `none` is NULL.
pub readdir : (dirp : ℕ) → Option (List ℕ)
readdir dirp = none

-- What it returns, and `errno`.
pub closedir : (dirp : ℕ) → ℤ × ℕ
closedir dirp = (negsuc 0, enosys)

-- The kernel of kernel/syscall.c; its state is the program's `errno`. No call writes to the buffer that is
-- passed, which has the bytes `buffer`.
pub ulmix : (behind_table : ℕ → ℕ) → (buffer : Mem) → Kernel ℕ
unfolding user_call_of
ulmix behind_table buffer errno r = elim (user_call behind_table (user_call_of r) errno) [
  | none ↦ none
  | some res ↦ some (record { value = res.value; errno = res.errno; buffer = buffer }, res.errno)
]
