-- ===== src/Syscall/Calls.antt =====
-- kernel/syscall.c and userspace/stdlib/syscalls.c: what a user program sees of its calls.
use ulmix_i.Base.{ℕ, ◌≡◌, refl, some}
use ulmix_i.Base.Int.{pos, negsuc}
use ulmix_i.Errno.{enosys}
use ulmix_i.Syscall.{
  Result, UserCall, exit, fork, read, write, open_file, close, waitpid, chdir, kdebug, getpid,
  uname, getcwd, execve, user_call, syscall_handler, syscall_table, number,
}

-- What a call gives its program: getpid() is 0; _exit() comes back, with the number that the kernel's
-- entry leaves; every other call fails with ENOSYS.
abbrev pub expected : UserCall → ℕ → Result
expected getpid errno = record { value = pos 0; errno = errno }
expected exit errno = record { value = negsuc 0; errno = 0xfff0 }
expected call errno = record { value = negsuc 0; errno = enosys }

-- Every call of the C library reaches an entry of the kernel's table and comes back: getpid() with 0
-- and errno as it was, _exit() with -1, and every other call with -1 and errno ENOSYS.
pub user_call-expected :
    (behind_table : ℕ → ℕ) (call : UserCall) (errno : ℕ)
    → user_call behind_table call errno ≡ some (expected call errno)
unfolding user_call syscall_handler syscall_table number
user_call-expected behind_table exit errno = refl
user_call-expected behind_table fork errno = refl
user_call-expected behind_table read errno = refl
user_call-expected behind_table write errno = refl
user_call-expected behind_table open_file errno = refl
user_call-expected behind_table close errno = refl
user_call-expected behind_table waitpid errno = refl
user_call-expected behind_table chdir errno = refl
user_call-expected behind_table kdebug errno = refl
user_call-expected behind_table getpid errno = refl
user_call-expected behind_table uname errno = refl
user_call-expected behind_table getcwd errno = refl
user_call-expected behind_table execve errno = refl
