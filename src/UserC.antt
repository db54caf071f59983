-- ===== src/UserC.antt =====
-- userspace/stdlib/string.c and userspace/stdlib/printf.c: numbers and formats in the user programs' library.
-- strlen(), strcpy() and reverse() there are those of LibC.
pub mod Numbers
pub mod Formats
mod Tests
use ulmix_i.Base.{
  ℕ, zero, suc, ◌+◌, ◌-◌, ◌*◌, ◌/◌, ◌%◌, ◌^◌, ◌||◌, Bool, true, false, Option, none, some, List, [],
  ◌∷◌, ltb, leb, ◌==◌, if◌then◌else◌,
}
use ulmix_i.Base.Bits.{u32}
use ulmix_i.Base.Memory.{Mem, write}
use ulmix_i.LibC.{str_end, reverse}

pub get_letter : ℕ → ℕ
get_letter n = if ltb n 10 then b'0' + n else b'a' - 10 + n

-- What the loop of itoa() leaves: the end of the digits, and the memory; or it uses a `div` that is more than
-- an `int` can hold.
pub data WrittenDigits : Type 0 where
  written : (buf : ℕ) → Mem → WrittenDigits
  overflowed unfinished : WrittenDigits

-- `n` is not negative; the lowest digit comes first.
pub itoa_loop : ℕ → Mem → (n base buf last_div div : ℕ) → WrittenDigits
unfolding get_letter
itoa_loop zero m n base buf last_div div = unfinished
itoa_loop (suc fuel) m n base buf last_div div =
    let rest =
      itoa_loop fuel (write m buf (get_letter (n % div / last_div))) n base (buf + 1) div
        (div * base) in
    if n / last_div == 0 then written buf m else if leb (2 ^ 31) div then overflowed else rest

-- What itoa() does: it returns `str`, with the memory; or it uses a value that an `int` cannot hold.
pub data Converted : Type 0 where
  converted : Mem → Converted
  undefined endless : Converted

abbrev pub reversed : Option Mem → Converted
reversed none = endless
reversed (some m) = converted m

abbrev pub end_itoa : (fuel : ℕ) → (str : ℕ) → WrittenDigits → Converted
end_itoa fuel str (written buf m) = reversed (reverse fuel (write m buf 0) str)
end_itoa fuel str overflowed = undefined
end_itoa fuel str unfinished = endless

-- `n` is the pattern of an `int`; -2 ^ 31 has no opposite. 32 digits are enough; `fuel` is for reverse().
pub user_itoa : ℕ → Mem → (n str base : ℕ) → Converted
unfolding itoa_loop
user_itoa fuel m n str base =
    if n == 0
    then converted (write (write m str b'0') (str + 1) 0)
    else if n == 2 ^ 31
    then undefined
    else if ltb n (2 ^ 31)
    then end_itoa fuel str (itoa_loop 33 m n base str 1 base)
    else end_itoa fuel str (itoa_loop 33 (write m str b'-') (2 ^ 32 - n) base (str + 1) 1 base)

-- The copy loop of strcat(): the length of what was copied.
pub append_loop : ℕ → Mem → (dest src length : ℕ) → Option (ℕ × Mem)
append_loop zero m dest src length = none
append_loop (suc fuel) m dest src length =
    let rest = append_loop fuel (write m dest (m src)) (dest + 1) (src + 1) (u32 (length + 1)) in
    if m src == 0 then some (length, write m dest 0) else rest

pub user_strcat : ℕ → Mem → (dest src : ℕ) → Option (ℕ × Mem)
unfolding append_loop
user_strcat fuel m dest src = elim (str_end fuel m dest) [
  | none ↦ none
  | some end ↦ append_loop fuel m end src 0
]

-- The number and the unit of strsize().
pub unit_of : ℕ → ℕ × ℕ
unit_of n =
    if ltb 0 (n / (1024 * 1024 * 1024))
    then (n / (1024 * 1024 * 1024), b'G')
    else if ltb 0 (n / (1024 * 1024))
    then (n / (1024 * 1024), b'M')
    else if ltb 0 (n / 1024)
    then (n / 1024, b'K')
    else (n, b'B')

abbrev pub lengthless : Option (ℕ × Mem) → Converted
lengthless none = endless
lengthless (some (length, m)) = converted m

abbrev pub and_unit : (fuel buf unit : ℕ) → Converted → Converted
and_unit fuel buf unit undefined = undefined
and_unit fuel buf unit endless = endless
and_unit fuel buf unit (converted m) = lengthless (user_strcat fuel m buf unit)

-- strsize(), where the texts of the four units stand at the addresses `text`.
pub strsize : ℕ → Mem → (text : ℕ → ℕ) → (n buf : ℕ) → Converted
unfolding unit_of user_itoa user_strcat
strsize fuel m text n buf =
    let (d, unit) = unit_of n in and_unit fuel buf (text unit) (user_itoa fuel m d buf 10)

-- What sprintf() does: it returns the length, with the memory; or it uses an argument that was not passed or
-- a number that an `int` cannot hold; or there is no NUL.
pub data Printed : Type 0 where
  returned : (length : ℕ) → Mem → Printed
  no_argument int_overflow unending : Printed

-- A conversion: `len`, the memory, and the arguments that are left.
pub data Step : Type 0 where
  step : (len : ℕ) → Mem → List ℕ → Step
  missing too_large no_end : Step

-- `len = strcat(buf, text)`.
abbrev pub append : Option (ℕ × Mem) → List ℕ → Step
append none args = no_end
append (some (len, m)) args = step len m args

abbrev pub append_number : (fuel : ℕ) → (buf strbuf : ℕ) → Converted → List ℕ → Step
append_number fuel buf strbuf (converted m) args = append (user_strcat fuel m buf strbuf) args
append_number fuel buf strbuf undefined args = too_large
append_number fuel buf strbuf endless args = no_end

abbrev pub va_arg : List ℕ → (ℕ → List ℕ → Step) → Step
va_arg [] k = missing
va_arg (x ∷ args) k = k x args

-- The cases of the switch, behind `*buf = 0`; `len` is that of the conversion before. `strbuf` is the
-- address of the local buffer.
pub conversion : (fuel : ℕ) → Mem → (text : ℕ → ℕ) → (strbuf buf len c : ℕ) → (args : List ℕ) → Step
unfolding strsize user_itoa user_strcat
conversion fuel m text strbuf buf len c args =
    if c == b'd'
    then va_arg args (λ n rest. append_number fuel buf strbuf (user_itoa fuel m n strbuf 10) rest)
    else if c == b's'
    then va_arg args (λ str rest. append (user_strcat fuel m buf str) rest)
    else if c == b'x' || c == b'X'
    then va_arg args (λ n rest. append_number fuel buf strbuf (user_itoa fuel m n strbuf 16) rest)
    else if c == b'S'
    then va_arg args (λ n rest. append_number fuel buf strbuf (strsize fuel m text n strbuf) rest)
    else if c == b'%'
    then step 1 (write m buf b'%') args
    else step len m args

-- The loop, with `format` at the next character.
pub sprintf_loop :
    (rounds fuel : ℕ)
    → Mem
    → (text : ℕ → ℕ) → (strbuf buf format length len : ℕ) → (args : List ℕ) → Printed
unfolding conversion
sprintf_loop zero fuel m text strbuf buf format length len args = unending
sprintf_loop (suc rounds) fuel m text strbuf buf format length len args =
    let plain =
      sprintf_loop rounds fuel (write m buf (m format)) text strbuf (buf + 1) (format + 1)
        (u32 (length + 1)) len args in
    if m format == 0
    then returned length m
    else if m format == b'%'
    then elim (conversion fuel (write m buf 0) text strbuf buf len (write m buf 0 (format + 1))
        args) [
          | step len' m' args' ↦
              sprintf_loop rounds fuel m' text strbuf (buf + len') (format + 2)
                (u32 (length + len')) len' args'
          | missing ↦ no_argument
          | too_large ↦ int_overflow
          | no_end ↦ unending
        ]
    else plain

pub sprintf :
    (rounds fuel : ℕ) → Mem → (text : ℕ → ℕ) → (strbuf buf format : ℕ) → (args : List ℕ) → Printed
unfolding sprintf_loop
sprintf rounds fuel m text strbuf buf format args =
    sprintf_loop rounds fuel (write m buf 0) text strbuf buf format 0 0 args
