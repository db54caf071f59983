-- ===== src/Syscall/Tests.antt =====
-- The theorems of the system calls for number 200, with the word 0x100000 everywhere behind the table.
use ulmix_i.Base.{ℕ}

abbrev filled : ℕ → ℕ
filled i = 0x100000
