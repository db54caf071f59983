-- ===== src/Programs/Init.antt =====
-- userspace/init/init.c and userspace/netutils/dhcp.c.
use ulmix_i.Base.{ℕ, Bool, false, not, ◌+◌, ◌*◌, List, [], ◌∷◌, ◌==◌, if◌then◌else◌}
use ulmix_i.Base.Int.{ℤ, pos, is_negative}
use ulmix_i.Syscall.{magnitude}
use ulmix_i.Programs.{
  codes, num, string, Program, returns, call, exits, forks, asks_pid, asks_name, opens, executes,
  printf, puts, o_rdwr,
}

abbrev pub shell : List ℕ
shell = codes "/bin/ush"

abbrev pub dhcpd : List ℕ
dhcpd = codes "/bin/dhcpd"

-- `pid == 0`, and the sign of an `int`.
abbrev pub is_zero : ℤ → Bool
is_zero (pos n) = n == 0
is_zero z = false

abbrev pub is_one : ℤ → Bool
is_one (pos n) = n == 1
is_one z = false

-- start_program(), then `next`. execve() returns when it fails.
unfoldable pub start_program : (filename : List ℕ) → (next : Program ℤ) → Program ℤ
start_program filename next = call forks (λ pid.
    if is_zero pid.value
    then call (executes filename (filename ∷ [])) (λ a.
      if is_negative a.value then puts (codes "error: execve() returned an error") next else next)
    else next)

-- main(), where `uts` is the address of the local structure; its fields have 33 bytes each.
unfoldable pub init : (uts argc : ℕ) → Program ℤ
unfolding start_program
init uts argc =
    let greet =
      printf "%s %s %s    \nCopyright (C) 2018-2019\nWritten by Alexander Ulmer\n\n"
        (string uts ∷ string (uts + 3 * 33) ∷ string (uts + 4 * 33) ∷ [])
        (start_program dhcpd (start_program shell (returns (pos 0)))) in
    let hello = printf "init argc=%d\n" (num argc ∷ []) (call asks_name (λ a. greet)) in
    call asks_pid (λ pid.
      if not (is_one pid.value)
      then printf "init should only be run by the kernel\n" [] (returns (pos 1))
      else call (opens (codes "/dev/tty1") o_rdwr) (λ fd.
        if is_negative fd.value
        then call (exits (pos (magnitude fd.value))) (λ a. hello)
        else hello))

pub dhcpd_main : Program ℤ
dhcpd_main = printf "[DHCP] obtaining IP configuration\n" [] (returns (pos 0))
