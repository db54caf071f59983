-- ===== src/Errno.antt =====
-- libc/include/errno.h: the error numbers that the modelled code returns.
use Prim.Native.Nat.{ℕ}

abbrev pub success : ℕ
success = 0

abbrev pub enoent : ℕ
enoent = 2

abbrev pub eio : ℕ
eio = 5

abbrev pub eagain : ℕ
eagain = 11

abbrev pub enodev : ℕ
enodev = 19

abbrev pub enotdir : ℕ
enotdir = 20

abbrev pub enosys : ℕ
enosys = 38

abbrev pub enotsup : ℕ
enotsup = 95

abbrev pub efsnotsup : ℕ
efsnotsup = 134

abbrev pub econflict : ℕ
econflict = 135
