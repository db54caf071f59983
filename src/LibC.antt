-- ===== src/LibC.antt =====
-- libc/string.c, the kernel's C library: memory and string functions, numbers to text and back. Memory
-- is a function from addresses to bytes; a loop that runs to a NUL takes fuel.
pub mod Strings
pub mod Copies
pub mod Digits
pub mod DigitLoops
pub mod Printing
pub mod Messages
mod Tests
use ulmix_i.Base.{
  ℕ, zero, suc, ◌+◌, ◌-◌, ◌*◌, ◌/◌, ◌%◌, ◌^◌, Bool, true, false, not, ◌&&◌, ◌||◌, Option, none,
  some, List, [], ◌∷◌, ltb, leb, ◌==◌, if◌then◌else◌,
}
use ulmix_i.Base.Bits.{u8, u32, sub32}
use ulmix_i.Base.Int.{ℤ, pos, negsuc}
use ulmix_i.Base.Memory.{Mem, write}

-- The loops; each function returns `dest` or `mem` with the memory.
pub memset : Mem → (mem value n : ℕ) → Mem
memset m mem value zero = m
memset m mem value (suc n) = memset (write m mem value) (mem + 1) value n

unfoldable pub memcpy : Mem → (dest src n : ℕ) → Mem
memcpy m dest src zero = m
memcpy m dest src (suc n) = memcpy (write m dest (m src)) (dest + 1) (src + 1) n

unfoldable pub bzero : Mem → (s n : ℕ) → Mem
bzero m s zero = m
bzero m s (suc n) = bzero (write m s 0) (s + 1) n

unfoldable pub strlen_loop : ℕ → Mem → (s len : ℕ) → Option ℕ
strlen_loop zero m s len = none
strlen_loop (suc fuel) m s len =
    let rest = strlen_loop fuel m (s + 1) (u32 (len + 1)) in if m s == 0 then some len else rest

unfoldable pub strlen : ℕ → Mem → ℕ → Option ℕ
unfolding strlen_loop
strlen fuel m s = strlen_loop fuel m s 0

-- The copy loop of strcpy() and strcat(), up to and with the NUL.
pub copy_loop : ℕ → Mem → (dest src : ℕ) → Option Mem
copy_loop zero m dest src = none
copy_loop (suc fuel) m dest src =
    let rest = copy_loop fuel (write m dest (m src)) (dest + 1) (src + 1) in
    if m src == 0 then some (write m dest 0) else rest

pub strcpy : ℕ → Mem → (dest src : ℕ) → Option (ℕ × Mem)
strcpy fuel m dest src = elim (copy_loop fuel m dest src) [
  | none ↦ none
  | some m' ↦ some (dest, m')
]

-- `while (*dest++); dest--;`
pub str_end : ℕ → Mem → ℕ → Option ℕ
str_end zero m dest = none
str_end (suc fuel) m dest =
    let rest = str_end fuel m (dest + 1) in if m dest == 0 then some dest else rest

pub strcat : ℕ → Mem → (dest src : ℕ) → Option (ℕ × Mem)
strcat fuel m dest src = elim (str_end fuel m dest) [
  | none ↦ none
  | some end ↦ elim (copy_loop fuel m end src) [ none ↦ none | some m' ↦ some (dest, m') ]
]

-- `a < b` of two `char`, which are signed.
pub char_lt : ℕ → ℕ → Bool
char_lt a b = ltb ((a + 128) % 256) ((b + 128) % 256)

pub strcmp_loop : ℕ → Mem → (s1 s2 : ℕ) → Option ℤ
unfolding char_lt
strcmp_loop zero m s1 s2 = none
strcmp_loop (suc fuel) m s1 s2 =
    let rest = strcmp_loop fuel m (s1 + 1) (s2 + 1) in
    if not (m s1 == m s2)
    then some (if char_lt (m s1) (m s2) then negsuc 0 else pos 1)
    else if m s1 == 0
    then some (pos 0)
    else rest

pub strcmp : ℕ → Mem → (s1 s2 : ℕ) → Option ℤ
unfolding strcmp_loop
strcmp fuel m s1 s2 = strcmp_loop fuel m s1 s2

-- The loop of reverse(), with `j + 1` for j, which starts at -1 for an empty string.
unfoldable pub swap_loop : ℕ → Mem → (s i j1 : ℕ) → Mem
swap_loop zero m s i j1 = m
swap_loop (suc fuel) m s i j1 =
    let rest =
      swap_loop fuel (write (write m (s + i) (m (s + (j1 - 1)))) (s + (j1 - 1)) (m (s + i))) s
        (i + 1) (j1 - 1) in
    if ltb (i + 1) j1 then rest else m

unfoldable pub reverse : ℕ → Mem → ℕ → Option Mem
unfolding swap_loop
reverse fuel m s = elim (strlen fuel m s) [
  | none ↦ none
  | some len ↦ some (swap_loop len m s 0 len)
]

-- nchar() of a digit that is not negative.
unfoldable pub nchar : ℕ → ℕ
nchar x = if ltb x 10 then b'0' + x else b'a' + x - 10

-- The first loop of utoa(): the digits of `x` from `buf[i]` on, lowest first.
unfoldable pub digit_loop : ℕ → Mem → (x buf i : ℕ) → Option (ℕ × Mem)
unfolding nchar
digit_loop zero m x buf i = none
digit_loop (suc fuel) m x buf i =
    let rest = digit_loop fuel (write m (buf + i) (nchar (x % 10))) (x / 10) buf (i + 1) in
    if x == 0 then some (i, m) else rest

-- `while (pad-- > 0) buf[i++] = '0';`
unfoldable pub pad_loop : ℕ → Mem → (buf i : ℕ) → ℕ × Mem
pad_loop zero m buf i = (i, m)
pad_loop (suc pad) m buf i = pad_loop pad (write m (buf + i) b'0') buf (i + 1)

-- utoa(), for a `pad` that is not negative; the fuel is for reverse(), ten digits are enough for `x`.
unfoldable pub utoa : ℕ → Mem → (x buf pad : ℕ) → Option Mem
utoa fuel m x buf pad = elim (digit_loop 11 m x buf 0) [
  | none ↦ none
  | some (i, m1) ↦
      (let (i', m2) = pad_loop ((if ltb pad 1 then 1 else pad) - i) m1 buf i in
        reverse fuel (write m2 (buf + i') 0) buf)
]

-- itoa() drops the sign; `x` is the pattern of a `long`.
unfoldable pub itoa : ℕ → Mem → (x buf pad : ℕ) → Option Mem
unfolding utoa
itoa fuel m x buf pad = utoa fuel m (if ltb x (2 ^ 31) then x else 2 ^ 32 - x) buf pad

-- The loop of atoi(), from the last character to the first, in wrapping `int` arithmetic.
unfoldable pub atoi_loop : ℕ → Mem → (nptr x base : ℕ) → ℕ
atoi_loop zero m nptr x base = x
atoi_loop (suc i) m nptr x base =
    atoi_loop i m nptr (u32 (x + sub32 (m (nptr + i)) b'0' * base)) (u32 (base * 10))

unfoldable pub atoi : ℕ → Mem → ℕ → Option ℕ
unfolding atoi_loop
atoi fuel m nptr = elim (strlen fuel m nptr) [
  | none ↦ none
  | some len ↦ some (atoi_loop len m nptr 0 1)
]

-- The loop of xtoa(), for the digits below bit `4 * n`.
unfoldable pub hex_loop : ℕ → Mem → (x buf pad : ℕ) → (begin : Bool) → ℕ × Mem
unfolding nchar
hex_loop zero m x buf pad begin = (buf, m)
hex_loop (suc i) m x buf pad begin =
    let c = nchar (x / 2 ^ (i * 4) % 16) in
    let skip = c == b'0' && begin && leb pad i in
    hex_loop i (if skip then m else write m buf c) x (if skip then buf else buf + 1) pad
      (if skip then begin else false)

unfoldable pub xtoa : Mem → (x buf pad : ℕ) → Mem
unfolding hex_loop
xtoa m x buf pad =
    let (end, m') = hex_loop 8 m x buf (if ltb pad 1 then 1 else pad) true in write m' end 0
