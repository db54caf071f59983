-- ===== src/UserC/Tests.antt =====
-- userspace/stdlib/string.c and userspace/stdlib/printf.c on concrete memory.
use ulmix_i.Base.{
  ℕ, ◌-◌, ◌^◌, ◌≡◌, refl, none, some, List, [], ◌∷◌, arith, get_elem?, ltb, if◌then◌else◌,
}
use ulmix_i.Base.Memory.{Mem}
use ulmix_i.LibC.{utoa, reverse, strlen, strlen_loop, swap_loop}
use ulmix_i.UserC.{
  get_letter, itoa_loop, Converted, converted, undefined, endless, reversed, user_itoa,
}
use ulmix_i.UserC.Numbers.{user_itoa-utoa}

-- "hi" at 100, in front of bytes of 1.
abbrev text : List ℕ
text = b'h' ∷ b'i' ∷ 0 ∷ []

abbrev ram : Mem
ram a = if ltb a 100 then 1 else elim (get_elem? text (a - 100)) [ none ↦ 1 | some c ↦ c ]

abbrev three_bytes : Converted → List ℕ
three_bytes (converted m) = m 0 ∷ m 1 ∷ m 2 ∷ []
three_bytes undefined = []
three_bytes endless = []

-- itoa() of -5: the sign comes last.
sign_last : three_bytes (user_itoa 10 ram (2 ^ 32 - 5) 0 10) ≡ b'5' ∷ b'-' ∷ 0 ∷ []
unfolding user_itoa itoa_loop get_letter reverse strlen strlen_loop swap_loop
sign_last = refl

user_itoa-utoa_example : user_itoa 12 ram 407 0 10 ≡ reversed (utoa 12 ram 407 0 1)
user_itoa-utoa_example = user_itoa-utoa 12 ram 407 0 (omega arith) (omega arith)
