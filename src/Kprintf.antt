-- ===== src/Kprintf.antt =====
-- kernel/kprintf.c: the formats of kprintf(). A format is the list of its bytes up to the NUL, the arguments
-- are the words behind it, and strings stand in memory. What is printed goes to the screen and to the debug
-- port alike. `old` is what `fmt_buf` held before; `int` and `long` both have 32 bits.
pub mod Formats
mod Tests
use ulmix_i.Base.{
  ℕ, zero, suc, ◌+◌, ◌-◌, ◌*◌, ◌/◌, ◌%◌, ◌^◌, Bool, true, false, not, ◌&&◌, ◌||◌, Option, none,
  some, List, [], ◌∷◌, ◌++◌, ltb, leb, ◌==◌, if◌then◌else◌, length, get_elem?,
}
use ulmix_i.Base.Bits.{u8}
use ulmix_i.Base.Memory.{Mem}
use ulmix_i.LibC.{atoi, itoa, utoa, xtoa}

abbrev pub head : List ℕ → ℕ
head [] = 0
head (c ∷ s) = c

abbrev pub tail : List ℕ → List ℕ
tail [] = []
tail (c ∷ s) = s

-- kputs(): the characters up to the NUL.
pub kputs : ℕ → Mem → (s : ℕ) → Option (List ℕ)
kputs zero m s = none
kputs (suc fuel) m s =
    let rest = kputs fuel m (s + 1) in
    if m s == 0 then some [] else elim rest [ none ↦ none | some text ↦ some (m s ∷ text) ]

abbrev pub is_digit : ℕ → Bool
is_digit c = leb b'0' c && leb c b'9'

-- The inner loop of get_flags(): the digits, and the rest.
pub digits : List ℕ → List ℕ × List ℕ
digits [] = ([], [])
digits (c ∷ s) = let (ds, rest) = digits s in if is_digit c then (c ∷ ds, rest) else ([], c ∷ s)

-- The bytes `s` as a string at address 0.
abbrev pub as_string : List ℕ → Mem
as_string s a = elim (get_elem? s a) [ none ↦ 0 | some c ↦ c ]

-- What get_flags() finds: the flag FMT_LONG and the padding, and the rest of the format; or a write behind
-- `buf[8]`, which has room for seven digits.
pub data Flags : Type 0 where
  flags : (fmt_long : Bool) → (padding : ℕ) → List ℕ → Flags
  buf_overflow unfinished : Flags

pub get_flags : ℕ → (fmt_long : Bool) → (padding : ℕ) → List ℕ → Flags
unfolding digits
get_flags zero fmt_long padding fmt = unfinished
get_flags (suc fuel) fmt_long padding fmt =
    let (ds, rest) = digits fmt in
    let number : ℕ = elim (atoi 9 (as_string ds) 0) [ none ↦ 0 | some x ↦ x ] in
    let behind_digits = get_flags fuel fmt_long number rest in
    let behind_l = get_flags fuel true padding (tail fmt) in
    if head fmt == b'0'
    then (if ltb 7 (length ds) then buf_overflow else behind_digits)
    else if head fmt == b'l'
    then behind_l
    else flags fmt_long padding fmt

-- scale(): the number to print, and its unit.
pub scale : ℕ → ℕ × ℕ
scale sz =
    if ltb sz (1024 * 10)
    then (sz, b'B')
    else if ltb sz (1024 * 1024 * 10)
    then (sz / 1024, b'K')
    else if ltb sz (2 ^ 32 - 1)
    then (sz / (1024 * 1024), b'M')
    else (sz / (1024 * 1024 * 1024), b'G')

-- What is printed, with the arguments that are left; or a write behind `fmt_buf[128]`, an argument that was
-- not passed, or a string without an end.
pub data Printed : Type 0 where
  printed : List ℕ → List ℕ → Printed
  fmt_overflow no_argument endless : Printed

abbrev pub print : List ℕ → Printed → Printed
print text (printed out args) = printed (text ++ out) args
print text fmt_overflow = fmt_overflow
print text no_argument = no_argument
print text endless = endless

abbrev pub behind : Printed → (List ℕ → Printed) → Printed
behind (printed out args) k = print out (k args)
behind fmt_overflow k = fmt_overflow
behind no_argument k = no_argument
behind endless k = endless

abbrev pub put : Option (List ℕ) → List ℕ → Printed
put none args = endless
put (some text) args = printed text args

-- kputs() of a number in `fmt_buf`.
pub put_number : Option Mem → Option (List ℕ)
unfolding kputs
put_number none = none
put_number (some m) = kputs 128 m 0

-- kputs() of a number that was printed in `fmt_buf` with at least `padding` digits.
pub put_padded : Option Mem → (padding : ℕ) → (args : List ℕ) → Printed
unfolding put_number
put_padded r padding args = if ltb 127 padding then fmt_overflow else put (put_number r) args

-- The next argument.
abbrev pub va_arg : List ℕ → (ℕ → List ℕ → Printed) → Printed
va_arg [] k = no_argument
va_arg (x ∷ args) k = k x args

-- The cases of the switch; `m` holds the strings, and `fuel` is for their ends.
pub convert : ℕ → (m old : Mem) → (fmt_char padding : ℕ) → (args : List ℕ) → Printed
unfolding put_padded scale kputs put_number
convert fuel m old fmt_char padding args =
    if fmt_char == b'%'
    then printed (b'%' ∷ []) args
    else if fmt_char == b'd'
    then va_arg args (λ x rest. put_padded (itoa 128 old x 0 padding) padding rest)
    else if fmt_char == b'u'
    then va_arg args (λ x rest. put_padded (utoa 128 old x 0 padding) padding rest)
    else if fmt_char == b's'
    then va_arg args (λ ptr rest. if ptr == 0 then printed [] rest else put (kputs fuel m ptr) rest)
    else if fmt_char == b'c'
    then va_arg args (λ x rest. printed (u8 x ∷ []) rest)
    else if fmt_char == b'p'
    then va_arg args
        (λ x rest. print (b'0' ∷ b'x' ∷ []) (put (put_number (some (xtoa old x 0 8))) rest))
    else if fmt_char == b'x'
    then va_arg args (λ x rest. put (put_number (some (xtoa old x 0 padding))) rest)
    else if fmt_char == b'S'
    then va_arg args (λ x rest.
      let (n, unit) = scale x in
      behind (put_padded (utoa 128 old n 0 padding) padding rest)
        (λ rest'. printed (unit ∷ []) rest'))
    else printed [] args

-- `rounds` is for the loops over the format, `fuel` for the ends of strings.
pub do_kprintf : (rounds fuel : ℕ) → (m old : Mem) → (args fmt : List ℕ) → Printed
unfolding get_flags convert
do_kprintf zero fuel m old args fmt = endless
do_kprintf (suc rounds) fuel m old args [] = printed [] args
do_kprintf (suc rounds) fuel m old args (c ∷ fmt) =
    let text = print (c ∷ []) (do_kprintf rounds fuel m old args fmt) in
    if c == b'%'
    then elim (get_flags rounds false 1 fmt) [
      | flags fmt_long padding rest ↦
          behind (convert fuel m old (head rest) padding args)
            (λ args'. do_kprintf rounds fuel m old args' (tail rest))
      | buf_overflow ↦ fmt_overflow
      | unfinished ↦ endless
    ]
    else text

-- kprintf() with its lock: `none` is a wait for ever.
pub kprintf :
    (rounds fuel : ℕ)
    → (locked : Bool) → (m old : Mem) → (args fmt : List ℕ) → Option (Printed × Bool)
unfolding do_kprintf
kprintf rounds fuel locked m old args fmt =
    if locked then none else some (do_kprintf rounds fuel m old args fmt, false)

-- "\n === PANIC ===\n"
abbrev pub panic_text : List ℕ
panic_text =
    10 ∷ b' ' ∷ b'=' ∷ b'=' ∷ b'=' ∷ b' ' ∷ b'P' ∷ b'A' ∷ b'N' ∷ b'I' ∷ b'C' ∷ b' ' ∷ b'=' ∷ b'='
    ∷ b'=' ∷ 10 ∷ []

-- panic() prints its message without the lock, and stops; it waits for ever when the lock is taken.
pub panic :
    (rounds fuel : ℕ) → (locked : Bool) → (m old : Mem) → (args fmt : List ℕ) → Option Printed
unfolding kprintf
panic rounds fuel locked m old args fmt = elim (kprintf rounds fuel locked m old [] panic_text) [
  | none ↦ none
  | some (out, locked') ↦ some (behind out (λ rest. do_kprintf rounds fuel m old args fmt))
]
