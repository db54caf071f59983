-- ===== src/LibC/Printing.antt =====
-- libc/string.c: what utoa() prints, and that atoi() reads it back.
use mathlib.Core.Path.{subst}
use ulmix_i.Base.{
  ℕ, ◌+◌, ◌-◌, ◌^◌, ◌<◌, ◌≤◌, ◌≡◌, ◌∙◌, sym, Option, none, some, arith, ltb, if◌then◌else◌,
}
use ulmix_i.Base.Memory.{Mem, write}
use ulmix_i.LibC.{pad_loop, utoa, atoi, reverse, swap_loop}
use ulmix_i.LibC.Strings.{swap_loop-swapped, reverse-swap_loop}
use ulmix_i.LibC.Digits.{
  value_low, IsDigit, Digits, value_high-value_low, value_low-same, chars, length-chars,
  chars-IsStr, Decimal, atoi-Decimal,
}
use ulmix_i.LibC.DigitLoops.{Written, digit_loop-Written, Padded, pad_loop-Padded}

module _ (n : ℕ) (m : Mem) (buf : ℕ) (digits : Digits n m buf) where
  abbrev reversed : Mem
  reversed = swap_loop n m buf 0 n

  reversed-at : (j : ℕ) → j < n → reversed (buf + j) ≡ m (buf + (n - 1 - j))
  reversed-at j lt = swap_loop-swapped n m buf 0 n (buf + j) (omega arith) ∙ ground arith

  reversed-Digits : Digits n reversed buf
  reversed-Digits j lt = subst IsDigit (sym (reversed-at j lt)) (digits (n - 1 - j) (omega arith))

  reversed-Decimal : m (buf + n) ≡ 0 → Decimal n reversed (value_low n m buf) buf
  reversed-Decimal nul = (
    reversed-Digits,
    swap_loop-swapped n m buf 0 n (buf + n) (omega arith) ∙ ground arith,
    value_high-value_low n m reversed buf buf reversed-at,
  )

  reverse-reversed :
      (fuel : ℕ) → m (buf + n) ≡ 0 → n < fuel → n < 2 ^ 32 → reverse fuel m buf ≡ some reversed
  reverse-reversed fuel nul enough small =
      subst (λ l. reverse fuel m buf ≡ some (swap_loop l m buf 0 l)) (length-chars n m buf)
        (reverse-swap_loop (chars n m buf) fuel m buf (chars-IsStr n m buf digits nul)
          (omega (arith, length-chars n m buf)) (omega (arith, length-chars n m buf)))

-- What utoa() owes its caller: at least `pad` digits.
abbrev pub Printed : (fuel x buf pad : ℕ) → Option Mem → Type 0
Printed fuel x buf pad none = ⊥
Printed fuel x buf pad (some m') = (n : ℕ) × (n < fuel) × (pad ≤ n) × Decimal n m' x buf

Padded-reversed :
    (fuel k n x buf pad : ℕ) (r : ℕ × Mem) (m : Mem)
    → Padded k n m buf r
    → n + k < fuel
    → n + k < 2 ^ 32
    → pad ≤ n + k
    → value_low n m buf ≡ x
    → Printed fuel x buf pad (reverse fuel (write r.1 (buf + r.0) 0) buf)
Padded-reversed fuel k n x buf pad (i, m') m (e, digits, value) enough small wide ends =
    rw (e, reverse-reversed (n + k) terminated buf still fuel nul enough small)
      (n + k, enough, wide, rw (sym same) (reversed-Decimal (n + k) terminated buf still nul))
  where
    terminated : Mem
    terminated = write m' (buf + (n + k)) 0

    still : Digits (n + k) terminated buf
    still j lt = ground (arith, digits j lt)

    nul : terminated (buf + (n + k)) ≡ 0
    nul = ground arith

    same : value_low (n + k) terminated buf ≡ x
    same = value_low-same (n + k) m' terminated buf (λ j lt. ground arith) ∙ value ∙ ends

-- The end of utoa().
abbrev finish : ℕ → (buf : ℕ) → ℕ × Mem → Option Mem
finish fuel buf r = reverse fuel (write r.1 (buf + r.0) 0) buf

pad_and_reverse :
    (fuel n x buf pad : ℕ) (m : Mem)
    → Digits n m buf
    → value_low n m buf ≡ x
    → n < fuel
    → pad < fuel
    → 1 < fuel
    → fuel ≤ 2 ^ 32
    → Printed fuel x buf pad
        (finish fuel buf (pad_loop ((if ltb pad 1 then 1 else pad) - n) m buf n))
pad_and_reverse fuel n x buf pad m digits value few narrow two small =
    Padded-reversed fuel ((if ltb pad 1 then 1 else pad) - n) n x buf pad _ m
      (pad_loop-Padded ((if ltb pad 1 then 1 else pad) - n) n m buf digits) (ground arith)
      (ground arith) (ground arith) value

zero_plus : (n : ℕ) → 0 + n ≡ n
zero_plus n = omega arith

-- utoa() of a 32-bit number leaves at `buf` at least `pad` decimal digits that stand for the number, the
-- highest first, and a NUL, with any fuel above `pad` and above ten.
pub utoa-Printed :
    (fuel : ℕ) (m : Mem) (x buf pad : ℕ)
    → x < 2 ^ 32
    → pad < fuel
    → 10 < fuel
    → fuel ≤ 2 ^ 32
    → Printed fuel x buf pad (utoa fuel m x buf pad)
unfolding utoa
utoa-Printed fuel m x buf pad small narrow ten fits =
    go (digit_loop-Written 10 m x buf 0 buf (omega arith) (omega arith))
  where
    go : Written 10 m x buf 0 buf → Printed fuel x buf pad (utoa fuel m x buf pad)
    go (n, m', eq, few, same, digits, value) =
        rw (eq, zero_plus n, utoa)
          (pad_and_reverse fuel n x buf pad m' digits value (omega arith) narrow (omega arith) fits)

abbrev pub read_back : ℕ → (buf : ℕ) → Option Mem → Option ℕ
read_back fuel buf none = none
read_back fuel buf (some m) = atoi fuel m buf

-- atoi() reads back the number that utoa() printed, for every 32-bit number and every padding, with any
-- fuel above the padding and above ten.
pub atoi-utoa :
    (fuel : ℕ) (m : Mem) (x buf pad : ℕ)
    → x < 2 ^ 32
    → pad < fuel
    → 10 < fuel
    → fuel ≤ 2 ^ 32
    → read_back fuel buf (utoa fuel m x buf pad) ≡ some x
atoi-utoa fuel m x buf pad small narrow ten fits =
    go (utoa fuel m x buf pad) (utoa-Printed fuel m x buf pad small narrow ten fits)
  where
    go : (r : Option Mem) → Printed fuel x buf pad r → read_back fuel buf r ≡ some x
    go none printed = absurd printed
    go (some m') (n, enough, wide, decimal) = atoi-Decimal n fuel m' x buf decimal small enough fits
