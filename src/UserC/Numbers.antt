-- ===== src/UserC/Numbers.antt =====
-- userspace/stdlib/string.c: itoa() against utoa() of libc/string.c, and where it overflows.
use mathlib.Core.Path.{subst}
use native.Mathlib.Nat.{
  div-div-eq-div-mul, div-add-mod, mod-lt, mul-add-div, add-mul-mod_self_left, mod-eq_of_lt,
  div-lt_iff_lt-mul, div-eq_of_lt, pow-suc, pow-zero, pow-le-pow_right, mul_assoc, one-le-pow,
  le-div_iff_mul-le, mul_comm, mul-pos, div-one,
}
use ulmix_i.Base.{
  ℕ, zero, suc, ◌+◌, ◌-◌, ◌*◌, ◌/◌, ◌%◌, ◌^◌, ◌<◌, ◌≤◌, ◌≡◌, ◌∙◌, inl, inr, refl, sym, ap, true,
  false, Option, none, some, arith, ltb, leb, ◌==◌, Bool-cases,
}
use ulmix_i.Base.Memory.{Mem, write}
use ulmix_i.LibC.{nchar, digit_loop, pad_loop, utoa}
use ulmix_i.LibC.DigitLoops.{Written, digit_loop-Written}
use ulmix_i.UserC.{
  get_letter, WrittenDigits, written, overflowed, itoa_loop, undefined, reversed, end_itoa,
  user_itoa,
}

-- The digit that itoa() takes out of the middle.
middle_digit : (n d b : ℕ) → 0 < d → 0 < b → n % (d * b) / d ≡ n / d % b
middle_digit n d b dpos bpos = sym (
    ap (λ k. k % b) split
    ∙ ap (λ k. k % b) {x = b * q + r / d} {y = r / d + b * q} (omega arith)
    ∙ add-mul-mod_self_left (r / d) b q
    ∙ mod-eq_of_lt below)
  where
    q : ℕ
    q = n / (d * b)

    r : ℕ
    r = n % (d * b)

    split : n / d ≡ b * q + r / d
    split =
        ap (λ k. k / d) (sym (div-add-mod n (d * b)) ∙ ap (λ k. k + r) (mul_assoc d b q))
        ∙ mul-add-div dpos (b * q) r

    below : r / d < b
    below =
        (div-lt_iff_lt-mul dpos).1
          (subst (λ k. r < k) (mul_comm d b) (mod-lt n (mul-pos dpos bpos)))

next_quotient : (n d : ℕ) → n / (d * 10) ≡ n / d / 10
next_quotient n d = sym (div-div-eq-div-mul n d 10)

-- A power of ten that is reached before 10 ^ 9.
small_power : (i n : ℕ) → 10 ^ i ≤ n → n < 10 ^ 9 → 10 ^ i * 10 ≤ 10 ^ 9
small_power i n le lt = elim (Bool-cases (ltb i 9)) [
  | inl t ↦
      subst (λ k. k ≤ 10 ^ 9) (pow-suc 10 i)
        (pow-le-pow_right {n = 10} (omega arith) {i = suc i} {j = 9} (ground (arith, t)))
  | inr t ↦
      absurd
        (omega (arith, le, lt, pow-le-pow_right {n = 10} (omega arith) {i = 9} {j = i} (above t)))
]
  where
    above : ltb i 9 ≡ false → 9 ≤ i
    above t = ground arith

get_letter-nchar : (x : ℕ) → x < 10 → get_letter x ≡ nchar x
unfolding get_letter nchar
get_letter-nchar x lt = ground arith

-- The two loops leave the same.
abbrev Same : (str : ℕ) → Option (ℕ × Mem) → WrittenDigits → Type 0
Same str (some (j, m)) r = r ≡ written (str + j) m
Same str none r = ⊥

digit_loop_step :
    (k : ℕ) (m : Mem) (x str i : ℕ)
    → (x == 0) ≡ false
    → digit_loop (suc k) m x str i
      ≡ digit_loop k (write m (str + i) (nchar (x % 10))) (x / 10) str (i + 1)
unfolding digit_loop
digit_loop_step k m x str i t = rw (t, digit_loop) refl

itoa_loop_step :
    (k : ℕ) (m : Mem) (n base buf last_div div : ℕ)
    → (n / last_div == 0) ≡ false
    → leb (2 ^ 31) div ≡ false
    → itoa_loop (suc k) m n base buf last_div div
      ≡ itoa_loop k
          (write m buf (get_letter (n % div / last_div)))
          n
          base
          (buf + 1)
          div
          (div * base)
unfolding itoa_loop
itoa_loop_step k m n base buf last_div div t fits = rw (t, fits, itoa_loop) refl

loops_stop :
    (k k' : ℕ) (m : Mem) (n str i : ℕ)
    → (n / 10 ^ i == 0) ≡ true
    → Same str
        (digit_loop (suc k) m (n / 10 ^ i) str i)
        (itoa_loop (suc k') m n 10 (str + i) (10 ^ i) (10 ^ i * 10))
unfolding digit_loop itoa_loop
loops_stop k k' m n str i t = rw (t, digit_loop, itoa_loop) refl

module _ (k k' : ℕ) (m : Mem) (n str i : ℕ) (small : n < 10 ^ 9)
    (t : (n / 10 ^ i == 0) ≡ false) where
  abbrev digit : ℕ
  digit = nchar (n / 10 ^ i % 10)

  power_pos : 0 < 10 ^ i
  power_pos = one-le-pow i 10 (omega arith)

  reached : 10 ^ i ≤ n
  reached = elim (Bool-cases (ltb n (10 ^ i))) [
    | inl below ↦ absurd (ground (arith, div-eq_of_lt {n = n} {m = 10 ^ i} (ground arith), t))
    | inr above ↦ ground (arith, above)
  ]

  fits : leb (2 ^ 31) (10 ^ i * 10) ≡ false
  fits = ground (arith, small_power i n reached small)

  shifted : n / 10 ^ i / 10 ≡ n / 10 ^ suc i
  shifted = sym (next_quotient n (10 ^ i)) ∙ ap (λ d. n / d) (sym (pow-suc 10 i))

  digit_loop_next :
      digit_loop (suc (suc k)) m (n / 10 ^ i) str i
      ≡ digit_loop (suc k) (write m (str + i) digit) (n / 10 ^ suc i) str (suc i)
  digit_loop_next =
      digit_loop_step (suc k) m (n / 10 ^ i) str i t
      ∙ ap (λ x. digit_loop (suc k) (write m (str + i) digit) x str (i + 1)) shifted
      ∙ ap (λ j. digit_loop (suc k) (write m (str + i) digit) (n / 10 ^ suc i) str j) {x = i + 1}
          (omega arith)

  same_digit : get_letter (n % (10 ^ i * 10) / 10 ^ i) ≡ digit
  same_digit =
      ap get_letter (middle_digit n (10 ^ i) 10 power_pos (omega arith))
      ∙ get_letter-nchar (n / 10 ^ i % 10) (omega arith)

  itoa_loop_next :
      itoa_loop (suc (suc k')) m n 10 (str + i) (10 ^ i) (10 ^ i * 10)
      ≡ itoa_loop
          (suc k')
          (write m (str + i) digit)
          n
          10
          (str + suc i)
          (10 ^ suc i)
          (10 ^ suc i * 10)
  itoa_loop_next =
      itoa_loop_step (suc k') m n 10 (str + i) (10 ^ i) (10 ^ i * 10) t fits
      ∙ ap
          (λ c.
            itoa_loop (suc k') (write m (str + i) c) n 10 (str + i + 1) (10 ^ i * 10)
              (10 ^ i * 10 * 10))
          same_digit
      ∙ ap
          (λ p.
            itoa_loop (suc k') (write m (str + i) digit) n 10 p (10 ^ i * 10) (10 ^ i * 10 * 10))
          {x = str + i + 1} (omega arith)
      ∙ ap (λ d. itoa_loop (suc k') (write m (str + i) digit) n 10 (str + suc i) d (d * 10))
          (sym (pow-suc 10 i))

itoa_loop-Same :
    (k k' : ℕ) (m : Mem) (n str i : ℕ)
    → n < 10 ^ 9
    → n / 10 ^ i < 10 ^ k
    → k ≤ k'
    → Same str
        (digit_loop (suc k) m (n / 10 ^ i) str i)
        (itoa_loop (suc k') m n 10 (str + i) (10 ^ i) (10 ^ i * 10))
itoa_loop-Same zero k' m n str i small few le = loops_stop zero k' m n str i (ground arith)
itoa_loop-Same (suc k) zero m n str i small few le = absurd (omega arith)
itoa_loop-Same (suc k) (suc k') m n str i small few le = elim (Bool-cases (n / 10 ^ i == 0)) [
  | inl t ↦ loops_stop (suc k) (suc k') m n str i t
  | inr t ↦
      subst (λ r. Same str r (itoa_loop (suc (suc k')) m n 10 (str + i) (10 ^ i) (10 ^ i * 10)))
        (sym (digit_loop_next k k' m n str i small t))
        (subst
          (Same str (
            digit_loop (suc k) (write m (str + i) (digit k k' m n str i small t)) (n / 10 ^ suc i)
              str (suc i)))
          (sym (itoa_loop_next k k' m n str i small t))
          (itoa_loop-Same k k' m1 n str (suc i) small
            (omega (arith, few, shifted k k' m n str i small t, pow-suc 10 k)) (omega arith)))
]
  where
    m1 : Mem
    m1 = write m (str + i) (nchar (n / 10 ^ i % 10))

-- From the start.
loops-Same :
    (m : Mem) (n str : ℕ)
    → n < 10 ^ 9
    → Same str (digit_loop 11 m n str 0) (itoa_loop 33 m n 10 str 1 10)
loops-Same m n str small =
    subst (λ x. Same str (digit_loop 11 m x str 0) (itoa_loop 33 m n 10 str 1 10)) (div-one n)
      (subst (λ p. Same str (digit_loop 11 m (n / 1) str 0) (itoa_loop 33 m n 10 p 1 10))
        {x = str + 0} (omega arith)
        (itoa_loop-Same 10 32 m n str 0 small (omega (arith, div-one n)) (omega arith)))

-- The ends of utoa() and itoa().
ends_same :
    (fuel : ℕ) (m : Mem) (n str : ℕ) (r : WrittenDigits)
    → 0 < n
    → Written 10 m n str 0 str
    → Same str (digit_loop 11 m n str 0) r
    → end_itoa fuel str r ≡ reversed (utoa fuel m n str 1)
unfolding utoa pad_loop
ends_same fuel m n str r some_number (zero, m', e, few, same, digits, value) s =
    absurd (omega arith)
ends_same fuel m n str r some_number (suc k, m', e, few, same, digits, value) s =
    ap (end_itoa fuel str) (subst (λ o. Same str o r) e s) ∙ rw (e, no_pad, utoa, pad_loop) refl
  where
    no_pad : 1 - (0 + suc k) ≡ 0
    no_pad = omega arith

user_itoa_positive :
    (fuel : ℕ) (m : Mem) (n str base : ℕ)
    → 0 < n
    → n < 2 ^ 31
    → user_itoa fuel m n str base ≡ end_itoa fuel str (itoa_loop 33 m n base str 1 base)
unfolding user_itoa
user_itoa_positive fuel m n str base some_number small =
    rw (not_zero, not_least, positive, user_itoa) refl
  where
    not_zero : (n == 0) ≡ false
    not_zero = ground arith

    not_least : (n == 2 ^ 31) ≡ false
    not_least = ground arith

    positive : ltb n (2 ^ 31) ≡ true
    positive = ground arith

-- itoa() of a positive number below 10 ^ 9 in base 10 does with the memory what utoa() of libc/string.c does
-- without padding, although it takes its digits from the middle of the number and does not divide it.
pub user_itoa-utoa :
    (fuel : ℕ) (m : Mem) (n str : ℕ)
    → 0 < n
    → n < 10 ^ 9
    → user_itoa fuel m n str 10 ≡ reversed (utoa fuel m n str 1)
user_itoa-utoa fuel m n str some_number small =
    user_itoa_positive fuel m n str 10 some_number (omega arith)
    ∙ ends_same fuel m n str (itoa_loop 33 m n 10 str 1 10) some_number
        (digit_loop-Written 10 m n str 0 str (omega arith) (omega arith)) (loops-Same m n str small)

quotient_left : (n base i k : ℕ) → 1 < base → i ≤ k → base ^ k ≤ n → (n / base ^ i == 0) ≡ false
quotient_left n base i k two le reached = ground (
  arith,
  (le-div_iff_mul-le {k = base ^ i} {x = 1} {y = n} (one-le-pow i base (omega arith))).1
      (omega (arith, reached, pow-le-pow_right {n = base} (omega arith) {i = i} {j = k} le)),
)

-- The loop goes on to a `div` that an `int` cannot hold.
itoa_loop_overflows :
    (j k fuel : ℕ) (m : Mem) (n base buf i : ℕ)
    → 1 < base
    → base ^ k ≤ n
    → 2 ^ 31 ≤ base ^ k * base
    → i + j ≡ k
    → j < fuel
    → itoa_loop fuel m n base buf (base ^ i) (base ^ i * base) ≡ overflowed
unfolding itoa_loop
itoa_loop_overflows j k zero m n base buf i two le big e lt = absurd (omega arith)
itoa_loop_overflows zero k (suc fuel) m n base buf i two le big e lt =
    rw (left, over, itoa_loop) refl
  where
    left : (n / base ^ i == 0) ≡ false
    left = quotient_left n base i k two (omega arith) le

    over : leb (2 ^ 31) (base ^ i * base) ≡ true
    over = ground (arith, big, ap (λ x. base ^ x * base) {x = i} {y = k} (omega (arith, e)))
itoa_loop_overflows (suc j) k (suc fuel) m n base buf i two le big e lt =
    elim (Bool-cases (leb (2 ^ 31) (base ^ i * base))) [
      | inl t ↦ rw (left, t, itoa_loop) refl
      | inr t ↦
          rw (left, t, itoa_loop)
            (subst
              (λ d.
                itoa_loop fuel (write m buf (get_letter (n % (base ^ i * base) / base ^ i))) n base
                  (buf + 1) d (d * base)
                ≡ overflowed)
              (pow-suc base i)
              (itoa_loop_overflows j k fuel
                (write m buf (get_letter (n % (base ^ i * base) / base ^ i))) n base (buf + 1)
                (suc i) two le big (omega arith) (omega arith)))
    ]
  where
    left : (n / base ^ i == 0) ≡ false
    left = quotient_left n base i k two (omega arith) le

-- itoa() overflows for every number that reaches a power of the base whose next power is 2 ^ 31 or more:
-- in base 10 from 10 ^ 9 on, and in base 16 from 2 ^ 28 on.
user_itoa_overflows :
    (fuel : ℕ) (m : Mem) (n str base k : ℕ)
    → 1 < base
    → k ≤ 31
    → base ^ k ≤ n
    → 2 ^ 31 ≤ base ^ k * base
    → n < 2 ^ 31
    → user_itoa fuel m n str base ≡ undefined
user_itoa_overflows fuel m n str base k two few le big small =
    user_itoa_positive fuel m n str base (omega (arith, le, one-le-pow k base (omega arith))) small
    ∙ ap (end_itoa fuel str) (
        subst (λ d. itoa_loop 33 m n base str 1 d ≡ overflowed) {x = 1 * base} (omega arith)
          (subst (λ d. itoa_loop 33 m n base str d (d * base) ≡ overflowed) (pow-zero base)
            (itoa_loop_overflows k k 33 m n base str 0 two le big (omega arith) (omega arith))))
