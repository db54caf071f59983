-- ===== src/Syscall.antt =====
-- kernel/syscall.c, the entry of arch/i686/syscall.s, the handlers in kernel/fs/file.c, kernel/fs/stat.c,
-- kernel/sched/process.c, kernel/timer.c and kernel/uname.c, and the callers in
-- userspace/stdlib/syscalls.c: system calls from a user program to the kernel and back.
mod Table
pub mod Calls
mod Tests
pub use Table.{
  Handler, sys_exit, sys_fork, sys_read, sys_write, sys_open, sys_close, sys_link, sys_unlink,
  sys_execve, sys_chdir, sys_stat, sys_lseek, sys_getpid, sys_fstat, sys_kill, sys_times, sys_brk,
  sys_uname, sys_gettimeofday, sys_getcwd,
}
unfoldable pub use Table.{syscall_table}
use ulmix_i.Base.{
  ℕ, zero, suc, ◌+◌, ◌-◌, ◌%◌, ◌^◌, ◌==◌, Bool, true, false, Option, none, some, List, [], ◌∷◌,
  ◌++◌, get_elem?, if◌then◌else◌,
}
use ulmix_i.Base.Int.{ℤ, pos, negsuc, neg, is_negative}
use ulmix_i.Errno.{enosys}

-- The handlers of kernel/sched/process.c, of kernel/fs/file.c and of kernel/fs/stat.c, with what they
-- return in eax. sys_exit() returns no value, and the register keeps what it holds.
pub process_call : Handler → (eax : ℤ) → Option ℤ
process_call sys_fork eax = some (neg enosys)
process_call sys_exit eax = some eax
process_call sys_kill eax = some (neg enosys)
process_call sys_getpid eax = some (pos 0)
process_call sys_execve eax = some (neg enosys)
process_call sys_chdir eax = some (neg enosys)
process_call sys_getcwd eax = some (neg enosys)
process_call sys_brk eax = some (neg enosys)
process_call sys_times eax = some (neg enosys)
process_call handler eax = none

pub file_call : Handler → Option ℤ
file_call sys_open = some (neg enosys)
file_call sys_close = some (neg enosys)
file_call sys_read = some (neg enosys)
file_call sys_write = some (neg enosys)
file_call sys_lseek = some (neg enosys)
file_call sys_link = some (neg enosys)
file_call sys_unlink = some (neg enosys)
file_call handler = none

pub stat_call : Handler → Option ℤ
stat_call sys_stat = some (neg enosys)
stat_call sys_fstat = some (neg enosys)
stat_call handler = none

abbrev or_else : Option ℤ → ℤ → ℤ
or_else none y = y
or_else (some x) y = x

-- sys_gettimeofday() and sys_uname() are left.
pub run_handler : Handler → (eax : ℤ) → ℤ
unfolding process_call file_call stat_call
run_handler handler eax =
    or_else (process_call handler eax)
      (or_else (file_call handler) (or_else (stat_call handler) (neg enosys)))

-- The number is not compared with the size of the table: behind it, memory is read as an address.
pub data Entered : Type 0 where
  returns : ℤ → Entered
  wild_jump : Entered

-- What stands in place of a handler: a call, or none for NULL. A word of the memory behind the table is
-- `none` too when it is 0, and is jumped to otherwise.
pub enter : Option (Option Handler) → (word : ℕ) → Entered
unfolding run_handler
enter none word = if word == 0 then returns (neg enosys) else wild_jump
enter (some none) word = returns (neg enosys)
enter (some (some handler)) word = returns (run_handler handler (neg 0xfff0))

-- syscall_handler. The address of the entry is `syscall_table + 4 * id` in 32 bits, which leaves 30 bits of
-- the number; `behind_table` gives the words of memory by the index that they would have. A handler starts with
-- 0xffff0010 in eax: -38, with 0x10 moved to its low half.
pub syscall_handler : (behind_table : ℕ → ℕ) → ℕ → Entered
unfolding enter
syscall_handler behind_table id =
    enter (get_elem? syscall_table (id % 2 ^ 30)) (behind_table (id % 2 ^ 30))

-- The program's `actual_errno`, and what __syscall() returns.
pub record Result : Type 0 where
  pub value : ℤ
  pub errno : ℕ

abbrev pub magnitude : ℤ → ℕ
magnitude (pos n) = n
magnitude (negsuc n) = suc n

-- __syscall(), for what the kernel leaves in eax.
pub syscall_result : ℤ → (errno : ℕ) → Result
syscall_result ret errno =
    if is_negative ret
    then record { value = negsuc 0; errno = magnitude ret }
    else record { value = ret; errno = errno }

-- The functions of the C library that enter the kernel.
pub data UserCall : Type 0 where
  exit fork read write open_file close waitpid chdir kdebug getpid uname getcwd execve : UserCall

pub number : UserCall → ℕ
number exit = 1
number fork = 2
number read = 3
number write = 4
number open_file = 5
number close = 6
number waitpid = 7
number execve = 11
number chdir = 12
number kdebug = 17
number getpid = 20
number uname = 109
number getcwd = 183

abbrev pub after_entry : Entered → (errno : ℕ) → Option Result
after_entry wild_jump errno = none
after_entry (returns ret) errno = some (syscall_result ret errno)

pub user_call : (behind_table : ℕ → ℕ) → UserCall → (errno : ℕ) → Option Result
unfolding syscall_result
user_call behind_table call errno = after_entry (syscall_handler behind_table (number call)) errno
