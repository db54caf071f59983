-- ===== src/Kprintf/Formats.antt =====
-- kernel/kprintf.c: do_kprintf() prints a format piece by piece.
use mathlib.Core.Path.{subst, fun_ext}
use native.Mathlib.Nat.{pow-suc, pow-le-pow_right}
use ulmix_i.Base.{
  ℕ, zero, suc, ◌+◌, ◌^◌, ◌-◌, ◌/◌, ◌%◌, if◌then◌else◌, Option, none, ◌<◌, ◌≤◌, ◌≡◌, ◌≢◌, ◌∙◌, refl,
  ap, Bool, true, false, some, List, [], ◌∷◌, ◌++◌, arith, ltb, ◌==◌, length, length-append,
}
use ulmix_i.Base.Memory.{Mem}
use ulmix_i.LibC.{atoi, itoa, utoa, xtoa}
use ulmix_i.LibC.Digits.{IsDigit, Digits, value_high, atoi-Decimal}
use ulmix_i.Kprintf.{
  head, is_digit, digits, as_string, flags, get_flags, Printed, printed, fmt_overflow, print,
  behind, convert, do_kprintf, no_argument, endless, put, kputs, put_number, put_padded, scale,
}

abbrev pub AllDigits : List ℕ → Type 0
AllDigits [] = Unit {0}
AllDigits (c ∷ s) = IsDigit c × AllDigits s

as_string-IsDigit : (s : List ℕ) (j : ℕ) → AllDigits s → j < length s → IsDigit (as_string s j)
as_string-IsDigit [] j d lt = absurd (omega arith)
as_string-IsDigit (c ∷ s) zero d lt = d.0
as_string-IsDigit (c ∷ s) (suc j) d lt = as_string-IsDigit s j d.1 (omega arith)

as_string-end : (s : List ℕ) → as_string s (length s) ≡ 0
as_string-end [] = refl
as_string-end (c ∷ s) = as_string-end s

value_high-below : (n : ℕ) (m : Mem) (p : ℕ) → Digits n m p → value_high n m p < 10 ^ n
value_high-below zero m p d = omega arith
value_high-below (suc n) m p d =
    omega
      (arith, pow-suc 10 n, value_high-below n m p (λ j lt. d j (omega arith)), d n (omega arith))

-- The number that some digits stand for.
abbrev pub width_value : List ℕ → ℕ
width_value s = value_high (length s) (as_string s) 0

ten_power : (n : ℕ) → n ≤ 7 → 10 ^ n ≤ 10 ^ 7
ten_power n h = pow-le-pow_right (omega arith) h

as_string-Digits : (s : List ℕ) → AllDigits s → Digits (length s) (as_string s) 0
as_string-Digits s d j lt =
    subst (λ a. IsDigit (as_string s a)) {x = j} (omega arith) (as_string-IsDigit s j d lt)

atoi-width_value :
    (s : List ℕ) → AllDigits s → length s ≤ 7 → atoi 9 (as_string s) 0 ≡ some (width_value s)
atoi-width_value s d short =
    atoi-Decimal (length s) 9 (as_string s) (width_value s) 0
      (
        as_string-Digits s d,
        ap (as_string s) {x = 0 + length s} (omega arith) ∙ as_string-end s,
        refl,
      )
      (omega (
        arith,
        value_high-below (length s) (as_string s) 0 (as_string-Digits s d),
        ten_power (length s) short,
      ))
      (omega arith) (omega arith)

-- The digits of a width, and what follows them.
digits-append :
    (s rest : List ℕ) → AllDigits s → is_digit (head rest) ≡ false → digits (s ++ rest) ≡ (s, rest)
unfolding digits
digits-append [] [] d e = refl
digits-append [] (c ∷ rest) d e = rw (e, digits) refl
digits-append (c ∷ s) rest d e = rw (is, digits-append s rest d.1 e, digits) refl
  where
    is : is_digit c ≡ true
    is = ground (arith, d.0)

-- The conversions with their letters, and any other character in their place.
pub data Conversion : Type 0 where
  percent decimal unsigned string character pointer hex size : Conversion
  other : ℕ → Conversion

abbrev pub letter : Conversion → ℕ
letter percent = b'%'
letter decimal = b'd'
letter unsigned = b'u'
letter string = b's'
letter character = b'c'
letter pointer = b'p'
letter hex = b'x'
letter size = b'S'
letter (other c) = c

-- No letter, no flag.
abbrev pub IsConversion : Conversion → Type 0
IsConversion (other c) =
    ((c == b'%') ≡ false)
    × ((c == b'd') ≡ false)
    × ((c == b'u') ≡ false)
    × ((c == b's') ≡ false)
    × ((c == b'c') ≡ false)
    × ((c == b'p') ≡ false)
    × ((c == b'x') ≡ false)
    × ((c == b'S') ≡ false)
    × (c ≢ b'l')
    × (is_digit c ≡ false)
IsConversion k = Unit {0}

not_flag : (k : Conversion) → IsConversion k → (letter k ≢ b'l') × (is_digit (letter k) ≡ false)
not_flag percent is = (λ e. omega (arith, e), refl)
not_flag decimal is = (λ e. omega (arith, e), refl)
not_flag unsigned is = (λ e. omega (arith, e), refl)
not_flag string is = (λ e. omega (arith, e), refl)
not_flag character is = (λ e. omega (arith, e), refl)
not_flag pointer is = (λ e. omega (arith, e), refl)
not_flag hex is = (λ e. omega (arith, e), refl)
not_flag size is = (λ e. omega (arith, e), refl)
not_flag (other c) (a, b, d, e, f, g, h, i, nl, nd) = (nl, nd)

-- The characters from `s` to the NUL.
abbrev pub string_at : ℕ → Mem → (s : ℕ) → (args : List ℕ) → Printed
string_at zero m s args = endless
string_at (suc fuel) m s args =
    if m s == 0 then printed [] args else print (m s ∷ []) (string_at fuel m (s + 1) args)

-- The digits of `x` that utoa() gives, at least `padding`, which must be below 128.
abbrev pub digits_of : (old : Mem) → (x padding : ℕ) → (args : List ℕ) → Printed
digits_of old x padding args =
    if ltb 127 padding
    then fmt_overflow
    else elim (utoa 128 old x 0 padding) [ none ↦ endless | some m ↦ string_at 128 m 0 args ]

-- A size of at most 10 KB in bytes, of 10 MB in KB, any other but the largest in MB, and that in GB.
abbrev pub scaled : ℕ → ℕ × ℕ
scaled x =
    if ltb x 10240
    then (x, b'B')
    else if ltb x 10485760
    then (x / 1024, b'K')
    else if ltb x 0xffffffff
    then (x / 1048576, b'M')
    else (x / 1073741824, b'G')

-- What a conversion prints: %d the magnitude of the argument in decimal, without its sign; %u the argument in
-- decimal, both with at least `padding` digits; %x with `padding` digits in hexadecimal, %p with `0x` and eight;
-- %s the string at the argument, nothing for NULL; %c a byte; %S a size and its unit; %% a percent sign; and
-- any other letter nothing.
abbrev pub expected : ℕ → (m old : Mem) → Conversion → (padding : ℕ) → (args : List ℕ) → Printed
expected fuel m old percent padding args = printed (b'%' ∷ []) args
expected fuel m old (other c) padding args = printed [] args
expected fuel m old decimal padding [] = no_argument
expected fuel m old decimal padding (x ∷ args) =
    digits_of old (if ltb x (2 ^ 31) then x else 2 ^ 32 - x) padding args
expected fuel m old unsigned padding [] = no_argument
expected fuel m old unsigned padding (x ∷ args) = digits_of old x padding args
expected fuel m old string padding [] = no_argument
expected fuel m old string padding (x ∷ args) =
    if x == 0 then printed [] args else string_at fuel m x args
expected fuel m old character padding [] = no_argument
expected fuel m old character padding (x ∷ args) = printed ((x % 256) ∷ []) args
expected fuel m old pointer padding [] = no_argument
expected fuel m old pointer padding (x ∷ args) =
    print (b'0' ∷ b'x' ∷ []) (string_at 128 (xtoa old x 0 8) 0 args)
expected fuel m old hex padding [] = no_argument
expected fuel m old hex padding (x ∷ args) = string_at 128 (xtoa old x 0 padding) 0 args
expected fuel m old size padding [] = no_argument
expected fuel m old size padding (x ∷ args) =
    behind (digits_of old (scaled x).0 padding args) (λ rest. printed ((scaled x).1 ∷ []) rest)

put-kputs :
    (fuel : ℕ) (m : Mem) (s : ℕ) (args : List ℕ)
    → put (kputs fuel m s) args ≡ string_at fuel m s args
unfolding kputs
put-kputs zero m s args = refl
put-kputs (suc fuel) m s args =
    go (m s == 0) (kputs fuel m (s + 1))
    ∙ ap (λ r. if m s == 0 then printed [] args else print (m s ∷ []) r)
        (put-kputs fuel m (s + 1) args)
  where
    go :
        (b : Bool) (rest : Option (List ℕ))
        → put (if b then some [] else elim rest [ none ↦ none | some t ↦ some (m s ∷ t) ]) args
          ≡ (if b then printed [] args else print (m s ∷ []) (put rest args))
    go true rest = refl
    go false none = refl
    go false (some t) = refl

put_padded-digits_of :
    (old : Mem) (x padding : ℕ) (args : List ℕ)
    → put_padded (utoa 128 old x 0 padding) padding args ≡ digits_of old x padding args
unfolding put_padded put_number
put_padded-digits_of old x padding args =
    ap (λ r. if ltb 127 padding then fmt_overflow else r) (go (utoa 128 old x 0 padding))
  where
    go :
        (r : Option Mem)
        → put (put_number r) args ≡ (elim r [ none ↦ endless | some m ↦ string_at 128 m 0 args ])
    go none = refl
    go (some m) = put-kputs 128 m 0 args

convert-expected :
    (fuel : ℕ) (m old : Mem) (k : Conversion) (padding : ℕ) (args : List ℕ)
    → IsConversion k
    → convert fuel m old (letter k) padding args ≡ expected fuel m old k padding args
unfolding convert put_number scale itoa
convert-expected fuel m old percent padding args is = refl
convert-expected fuel m old decimal padding [] is = refl
convert-expected fuel m old decimal padding (x ∷ args) is = put_padded-digits_of old _ padding args
convert-expected fuel m old unsigned padding [] is = refl
convert-expected fuel m old unsigned padding (x ∷ args) is = put_padded-digits_of old x padding args
convert-expected fuel m old string padding [] is = refl
convert-expected fuel m old string padding (x ∷ args) is =
    ap (λ r. if x == 0 then printed [] args else r) (put-kputs fuel m x args)
convert-expected fuel m old character padding [] is = refl
convert-expected fuel m old character padding (x ∷ args) is = refl
convert-expected fuel m old pointer padding [] is = refl
convert-expected fuel m old pointer padding (x ∷ args) is =
    ap (print (b'0' ∷ b'x' ∷ [])) (put-kputs 128 (xtoa old x 0 8) 0 args)
convert-expected fuel m old hex padding [] is = refl
convert-expected fuel m old hex padding (x ∷ args) is = put-kputs 128 (xtoa old x 0 padding) 0 args
convert-expected fuel m old size padding [] is = refl
convert-expected fuel m old size padding (x ∷ args) is =
    ap (λ r. behind r (λ rest. printed ((scaled x).1 ∷ []) rest))
      (put_padded-digits_of old (scaled x).0 padding args)
convert-expected fuel m old (other c) padding args (a, b, d, e, f, g, h, i, nl, nd) =
    rw (a, b, d, e, f, g, h, i, convert) refl

-- A piece of a format: a character, or a conversion with perhaps a width, which begins with 0, and an `l`.
pub data Piece : Type 0 where
  text : ℕ → Piece
  conversion : (width : List ℕ) → (fmt_long : Bool) → Conversion → Piece

abbrev length_flag : Bool → List ℕ
length_flag true = b'l' ∷ []
length_flag false = []

abbrev pub encode : Piece → List ℕ
encode (text c) = c ∷ []
encode (conversion w l k) = b'%' ∷ (w ++ (length_flag l ++ (letter k ∷ [])))

abbrev pub encode_all : List Piece → List ℕ
encode_all [] = []
encode_all (p ∷ ps) = encode p ++ encode_all ps

-- A width is empty, or a 0 and up to six digits more.
abbrev IsWidth : List ℕ → Type 0
IsWidth [] = Unit {0}
IsWidth (c ∷ s) = (c ≡ b'0') × AllDigits s × (length s ≤ 6)

abbrev pub IsPiece : Piece → Type 0
IsPiece (text c) = c ≢ b'%'
IsPiece (conversion w l k) = IsWidth w × IsConversion k

abbrev pub ArePieces : List Piece → Type 0
ArePieces [] = Unit {0}
ArePieces (p ∷ ps) = IsPiece p × ArePieces ps

-- The padding is 1 without a width.
abbrev pub padding_of : List ℕ → ℕ
padding_of [] = 1
padding_of (c ∷ s) = width_value (c ∷ s)

-- What is to be printed: each piece in its order, with the arguments that those before it have left.
abbrev pub print_all : ℕ → (m old : Mem) → (args : List ℕ) → List Piece → Printed
print_all fuel m old args [] = printed [] args
print_all fuel m old args (text c ∷ ps) = print (c ∷ []) (print_all fuel m old args ps)
print_all fuel m old args (conversion w l k ∷ ps) =
    behind (expected fuel m old k (padding_of w) args) (λ args'. print_all fuel m old args' ps)

get_flags-stop :
    (fuel : ℕ) (l : Bool) (padding c : ℕ) (rest : List ℕ)
    → c ≢ b'l'
    → is_digit c ≡ false
    → get_flags (suc fuel) l padding (c ∷ rest) ≡ flags l padding (c ∷ rest)
unfolding get_flags
get_flags-stop fuel l padding c rest nl nd = rw (not_zero, not_l, get_flags) refl
  where
    not_zero : (c == b'0') ≡ false
    not_zero = ground (arith, nd)

    not_l : (c == b'l') ≡ false
    not_l = ground arith

get_flags-length_flag :
    (r : ℕ) (l : Bool) (padding c : ℕ) (rest : List ℕ)
    → c ≢ b'l'
    → is_digit c ≡ false
    → length (length_flag l ++ (c ∷ rest)) ≤ r
    → get_flags r false padding (length_flag l ++ (c ∷ rest)) ≡ flags l padding (c ∷ rest)
unfolding get_flags
get_flags-length_flag zero true padding c rest nl nd h = absurd (omega arith)
get_flags-length_flag (suc zero) true padding c rest nl nd h = absurd (omega arith)
get_flags-length_flag (suc (suc r)) true padding c rest nl nd h =
    get_flags-stop r true padding c rest nl nd
get_flags-length_flag zero false padding c rest nl nd h = absurd (omega arith)
get_flags-length_flag (suc r) false padding c rest nl nd h =
    get_flags-stop r false padding c rest nl nd

get_flags-width :
    (fuel : ℕ) (padding c : ℕ) (s rest : List ℕ)
    → IsWidth (c ∷ s)
    → is_digit (head rest) ≡ false
    → get_flags (suc fuel) false padding ((c ∷ s) ++ rest)
      ≡ get_flags fuel false (width_value (c ∷ s)) rest
unfolding get_flags
get_flags-width fuel padding c s rest (zero_digit, d, short) nd =
    rw
      (
        digits-append (c ∷ s) rest all nd,
        atoi-width_value (c ∷ s) all (omega arith),
        zero_digit,
        fits,
        get_flags,
      )
      refl
  where
    all : AllDigits (c ∷ s)
    all = ((omega arith, omega arith), d)

    fits : ltb 7 (length (c ∷ s)) ≡ false
    fits = ground arith

no_digit :
    (l : Bool) (c : ℕ) (rest : List ℕ)
    → is_digit c ≡ false
    → is_digit (head (length_flag l ++ (c ∷ rest))) ≡ false
no_digit true c rest e = refl
no_digit false c rest e = e

-- get_flags() of a conversion, with as many rounds as it has characters.
get_flags-padding_of :
    (r : ℕ) (w : List ℕ) (l : Bool) (c : ℕ) (rest : List ℕ)
    → IsWidth w
    → c ≢ b'l'
    → is_digit c ≡ false
    → length (w ++ (length_flag l ++ (c ∷ rest))) ≤ r
    → get_flags r false 1 (w ++ (length_flag l ++ (c ∷ rest))) ≡ flags l (padding_of w) (c ∷ rest)
get_flags-padding_of r [] l c rest iw nl nd h = get_flags-length_flag r l 1 c rest nl nd h
get_flags-padding_of zero (d ∷ s) l c rest iw nl nd h = absurd (omega arith)
get_flags-padding_of (suc r) (d ∷ s) l c rest iw nl nd h =
    get_flags-width r 1 d s (length_flag l ++ (c ∷ rest)) iw (no_digit l c rest nd)
    ∙ get_flags-length_flag r l (width_value (d ∷ s)) c rest nl nd
        (omega (arith, length-append s (length_flag l ++ (c ∷ rest))))

encode-append :
    (w : List ℕ) (l : Bool) (c : ℕ) (rest : List ℕ)
    → (w ++ (length_flag l ++ (c ∷ []))) ++ rest ≡ w ++ (length_flag l ++ (c ∷ rest))
encode-append [] true c rest = refl
encode-append [] false c rest = refl
encode-append (d ∷ s) l c rest = ap (λ t. d ∷ t) (encode-append s l c rest)

-- Behind a conversion.
do_kprintf-conversion :
    (rounds fuel : ℕ) (m old : Mem) (args : List ℕ) (l : Bool) (padding c : ℕ) (fmt rest : List ℕ)
    → get_flags rounds false 1 fmt ≡ flags l padding (c ∷ rest)
    → do_kprintf (suc rounds) fuel m old args (b'%' ∷ fmt)
      ≡ behind
          (convert fuel m old c padding args)
          (λ args'. do_kprintf rounds fuel m old args' rest)
unfolding do_kprintf
do_kprintf-conversion rounds fuel m old args l padding c fmt rest e = rw (e, do_kprintf) refl

-- do_kprintf() prints every format that is made of characters and conversions, each conversion with perhaps
-- a width of up to seven digits that begins with 0, and an `l`: the characters as they stand, and for each
-- conversion what `expected` says, with the padding that its digits stand for, on the arguments that those
-- before it have left.
-- More rounds than the format has characters are enough.
pub do_kprintf-print_all :
    (ps : List Piece) (rounds fuel : ℕ) (m old : Mem) (args : List ℕ)
    → ArePieces ps
    → length (encode_all ps) < rounds
    → do_kprintf rounds fuel m old args (encode_all ps) ≡ print_all fuel m old args ps
unfolding do_kprintf
do_kprintf-print_all [] zero fuel m old args are enough = absurd (omega arith)
do_kprintf-print_all [] (suc rounds) fuel m old args are enough = refl
do_kprintf-print_all (p ∷ ps) zero fuel m old args are enough = absurd (omega arith)
do_kprintf-print_all (text c ∷ ps) (suc rounds) fuel m old args (is, are) enough =
    rw (plain, do_kprintf)
      (ap (print (c ∷ [])) (do_kprintf-print_all ps rounds fuel m old args are (omega arith)))
  where
    plain : (c == b'%') ≡ false
    plain = ground arith
do_kprintf-print_all (conversion w l k ∷ ps) (suc rounds) fuel m old args ((is_width, is), are)
      enough =
    ap (λ fmt. do_kprintf (suc rounds) fuel m old args (b'%' ∷ fmt))
      (encode-append w l (letter k) (encode_all ps))
    ∙ do_kprintf-conversion rounds fuel m old args l (padding_of w) (letter k) _ (encode_all ps) (
        get_flags-padding_of rounds w l (letter k) (encode_all ps) is_width (not_flag k is).0
          (not_flag k is).1 (omega (arith, total)))
    ∙ ap (λ r. behind r (λ args'. do_kprintf rounds fuel m old args' (encode_all ps)))
        (convert-expected fuel m old k (padding_of w) args is)
    ∙ ap (behind (expected fuel m old k (padding_of w) args)) (
        fun_ext (λ args'.
          do_kprintf-print_all ps rounds fuel m old args' are (omega (arith, total, rest))))
  where
    total :
        length ((w ++ (length_flag l ++ (letter k ∷ []))) ++ encode_all ps)
        ≡ length (w ++ (length_flag l ++ (letter k ∷ encode_all ps)))
    total = ap length (encode-append w l (letter k) (encode_all ps))

    rest : length (encode_all ps) < length (w ++ (length_flag l ++ (letter k ∷ encode_all ps)))
    rest = omega (
      arith,
      length-append w (length_flag l ++ (letter k ∷ encode_all ps)),
      length-append (length_flag l) (letter k ∷ encode_all ps),
    )

-- A width of eight digits or more, the first of them a 0, is written behind the eight bytes that
-- get_flags() has for it, in any conversion with any arguments.
do_kprintf_buf_overflow :
    (rounds fuel : ℕ) (m old : Mem) (args w rest : List ℕ)
    → AllDigits w
    → 7 < length w
    → head w ≡ b'0'
    → is_digit (head rest) ≡ false
    → do_kprintf (suc (suc rounds)) fuel m old args (b'%' ∷ (w ++ rest)) ≡ fmt_overflow
unfolding do_kprintf get_flags
do_kprintf_buf_overflow rounds fuel m old args [] rest d long z nd = absurd (omega arith)
do_kprintf_buf_overflow rounds fuel m old args (c ∷ w) rest d long z nd =
    rw (z, digits-append w rest d.1 nd, too_long, do_kprintf, get_flags) refl
  where
    too_long : ltb 7 (length (c ∷ w)) ≡ true
    too_long = ground arith
