-- ===== src/Syscall/Table.antt =====
-- kernel/syscall.c: the table of the system calls.
use ulmix_i.Base.{Option, none, some, List, [], ◌∷◌, ◌++◌}

pub data Handler : Type 0 where
  sys_exit sys_fork sys_read sys_write sys_open sys_close sys_link sys_unlink sys_execve sys_chdir
        sys_stat sys_lseek sys_getpid sys_fstat sys_kill sys_times sys_brk sys_uname
        sys_gettimeofday sys_getcwd :
      Handler

-- Entries 0 to 87 of the table; a `nop` is `none`.
syscalls_low : List (Option Handler)
syscalls_low =
    none
    ∷ some sys_exit
    ∷ some sys_fork
    ∷ some sys_read
    ∷ some sys_write
    ∷ some sys_open
    ∷ some sys_close
    ∷ none
    ∷ none
    ∷ some sys_link
    ∷ some sys_unlink
    ∷ some sys_execve
    ∷ some sys_chdir
    ∷ none
    ∷ none
    ∷ none
    ∷ none
    ∷ none
    ∷ some sys_stat
    ∷ some sys_lseek
    ∷ some sys_getpid
    ∷ none
    ∷ none
    ∷ none
    ∷ none
    ∷ none
    ∷ none
    ∷ none
    ∷ some sys_fstat
    ∷ none
    ∷ none
    ∷ none
    ∷ none
    ∷ none
    ∷ none
    ∷ none
    ∷ none
    ∷ some sys_kill
    ∷ none
    ∷ none
    ∷ none
    ∷ none
    ∷ none
    ∷ some sys_times
    ∷ none
    ∷ some sys_brk
    ∷ none
    ∷ none
    ∷ none
    ∷ none
    ∷ none
    ∷ none
    ∷ none
    ∷ none
    ∷ none
    ∷ none
    ∷ none
    ∷ none
    ∷ none
    ∷ some sys_uname
    ∷ none
    ∷ none
    ∷ none
    ∷ none
    ∷ none
    ∷ none
    ∷ none
    ∷ none
    ∷ none
    ∷ none
    ∷ none
    ∷ none
    ∷ none
    ∷ none
    ∷ none
    ∷ none
    ∷ none
    ∷ none
    ∷ some sys_gettimeofday
    ∷ none
    ∷ none
    ∷ none
    ∷ none
    ∷ none
    ∷ none
    ∷ none
    ∷ none
    ∷ none
    ∷ []

-- Entries 88 to 183.
syscalls_high : List (Option Handler)
syscalls_high =
    none
    ∷ none
    ∷ none
    ∷ none
    ∷ none
    ∷ none
    ∷ none
    ∷ none
    ∷ none
    ∷ none
    ∷ none
    ∷ none
    ∷ none
    ∷ none
    ∷ none
    ∷ none
    ∷ none
    ∷ none
    ∷ none
    ∷ none
    ∷ none
    ∷ some sys_uname
    ∷ none
    ∷ none
    ∷ none
    ∷ none
    ∷ none
    ∷ none
    ∷ none
    ∷ none
    ∷ none
    ∷ none
    ∷ none
    ∷ none
    ∷ some sys_uname
    ∷ none
    ∷ none
    ∷ none
    ∷ none
    ∷ none
    ∷ none
    ∷ none
    ∷ none
    ∷ none
    ∷ none
    ∷ none
    ∷ none
    ∷ none
    ∷ none
    ∷ none
    ∷ none
    ∷ none
    ∷ none
    ∷ none
    ∷ none
    ∷ none
    ∷ none
    ∷ none
    ∷ none
    ∷ none
    ∷ none
    ∷ none
    ∷ none
    ∷ none
    ∷ none
    ∷ none
    ∷ none
    ∷ none
    ∷ none
    ∷ none
    ∷ none
    ∷ none
    ∷ none
    ∷ none
    ∷ none
    ∷ none
    ∷ none
    ∷ none
    ∷ none
    ∷ none
    ∷ none
    ∷ none
    ∷ none
    ∷ none
    ∷ none
    ∷ none
    ∷ none
    ∷ none
    ∷ none
    ∷ none
    ∷ none
    ∷ none
    ∷ none
    ∷ none
    ∷ none
    ∷ some sys_getcwd
    ∷ []

unfoldable pub syscall_table : List (Option Handler)
unfolding syscalls_low syscalls_high
syscall_table = syscalls_low ++ syscalls_high
