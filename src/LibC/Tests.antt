-- ===== src/LibC/Tests.antt =====
-- libc/string.c and userspace/stdlib/string.c on concrete memory.
use ulmix_i.Base.{ℕ, ◌≡◌, ◌↔◌, ◌<◌, inr, refl, none, some, List, [], ◌∷◌, arith, get_elem?}
use ulmix_i.Base.Int.{pos, negsuc}
use ulmix_i.Base.Memory.{Mem, IsStr}
use ulmix_i.LibC.{memset, memcpy, strlen, strcpy, strcat, strcmp, reverse, utoa}
use ulmix_i.LibC.Copies.{memset-within, strcpy-memcpy}
use ulmix_i.LibC.Strings.{strlen-length, strcmp-order}
use ulmix_i.LibC.Printing.{Printed, utoa-Printed, read_back, atoi-utoa}
use ulmix_i.LibC.Messages.{user_strerror, wild, user_strerror-wild}

-- "ab" at 0, "abc" at 3, and NULs behind.
abbrev bytes : List ℕ
bytes = b'a' ∷ b'b' ∷ 0 ∷ b'a' ∷ b'b' ∷ b'c' ∷ 0 ∷ []

abbrev ram : Mem
ram a = elim (get_elem? bytes a) [ none ↦ 0 | some b ↦ b ]

abbrev ab : List ℕ
ab = b'a' ∷ b'b' ∷ []

abbrev abc : List ℕ
abc = b'a' ∷ b'b' ∷ b'c' ∷ []

ab-IsStr : IsStr ram 0 ab
ab-IsStr = (refl, omega arith, (refl, omega arith, refl))

abc-IsStr : IsStr ram 3 abc
abc-IsStr = (refl, omega arith, (refl, omega arith, (refl, omega arith, refl)))

memset-within_example : memset ram 1 7 3 3 ≡ 7
memset-within_example = memset-within 3 ram 1 7 3

strcpy-memcpy_example : strcpy 10 ram 20 3 ≡ some (20, memcpy ram 20 3 4)
strcpy-memcpy_example = strcpy-memcpy abc 10 ram 20 3 abc-IsStr (inr (omega arith)) (omega arith)

strlen-length_example : strlen 10 ram 3 ≡ some 3
strlen-length_example = strlen-length abc 10 ram 3 abc-IsStr (omega arith) (omega arith)

strcmp-order_example : (strcmp 10 ram 0 3 ≡ some (negsuc 0)) × ((negsuc 0 ≡ pos 0) ↔ (ab ≡ abc))
unfolding ulmix_i.LibC.char_lt
strcmp-order_example = strcmp-order ab abc 10 ram 0 3 ab-IsStr abc-IsStr (omega arith)

user_strerror-wild_example : (user_strerror 135 ≡ wild) ↔ (134 < 135)
user_strerror-wild_example = user_strerror-wild 135

utoa-Printed_example : Printed 20 407 50 4 (utoa 20 ram 407 50 4)
utoa-Printed_example =
    utoa-Printed 20 ram 407 50 4 (omega arith) (omega arith) (omega arith) (omega arith)

atoi-utoa_example : read_back 20 50 (utoa 20 ram 407 50 4) ≡ some 407
atoi-utoa_example =
    atoi-utoa 20 ram 407 50 4 (omega arith) (omega arith) (omega arith) (omega arith)
