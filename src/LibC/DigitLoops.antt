-- ===== src/LibC/DigitLoops.antt =====
-- libc/string.c: what the loops of utoa() write.
use ulmix_i.Base.{
  ℕ, zero, suc, ◌+◌, ◌/◌, ◌%◌, ◌^◌, ◌<◌, ◌≤◌, ◌≡◌, ◌∙◌, inl, inr, refl, ap, some, arith, ◌==◌,
  Bool-cases,
}
use ulmix_i.Base.Memory.{Mem, write}
use ulmix_i.LibC.{nchar, digit_loop, pad_loop}
use ulmix_i.LibC.Digits.{value_low, Digits, IsDigit-at, value_low-same}

-- What the first loop of utoa() leaves: `n` digits at `q`, which stand for `x`.
abbrev pub Written : ℕ → Mem → (x buf i q : ℕ) → Type 0
Written f m x buf i q =
    (n : ℕ) × (m' : Mem) × (digit_loop (suc f) m x buf i ≡ some (i + n, m'))
    × (n ≤ f)
    × ((a : ℕ) → a < q → m' a ≡ m a)
    × Digits n m' q
    × (value_low n m' q ≡ x)

digit_nchar : (x : ℕ) → nchar (x % 10) ≡ b'0' + x % 10
unfolding nchar
digit_nchar x = ground arith

-- One digit more in front of those that the rest of the loop writes.
Written-next :
    (f : ℕ) (m : Mem) (x buf i q : ℕ)
    → 0 < x
    → q ≡ buf + i
    → Written f (write m (buf + i) (nchar (x % 10))) (x / 10) buf (i + 1) (q + 1)
    → Written (suc f) m x buf i q
unfolding digit_loop
Written-next f m x buf i q pos e (n, m', eq, few, same, digits, value) = (
  suc n,
  m',
  ground (arith, eq),
  omega arith,
  (λ a lt. same a (omega arith) ∙ ground arith),
  all,
  rw here (rw value (omega arith)),
)
  where
    here : m' q ≡ b'0' + x % 10
    here = same q (omega arith) ∙ ground (arith, digit_nchar x)

    all : Digits (suc n) m' q
    all zero lt = IsDigit-at m' q (q + 0) (omega arith) (rw here (omega arith, omega arith))
    all (suc j) lt = IsDigit-at m' (q + 1 + j) (q + suc j) (omega arith) (digits j (omega arith))

pub digit_loop-Written :
    (f : ℕ) (m : Mem) (x buf i q : ℕ) → x < 10 ^ f → q ≡ buf + i → Written f m x buf i q
unfolding digit_loop
digit_loop-Written zero m x buf i q small e = (
  zero,
  m,
  ground arith,
  omega arith,
  (λ a lt. refl),
  (λ j lt. absurd (omega arith)),
  omega arith,
)
digit_loop-Written (suc f) m x buf i q small e = elim (Bool-cases (x == 0)) [
  | inl t ↦ (
    zero,
    m,
    ground arith,
    omega arith,
    (λ a lt. refl),
    (λ j lt. absurd (omega arith)),
    ground arith,
  )
  | inr t ↦ Written-next f m x buf i q (ground arith) e (
      digit_loop-Written f (write m (buf + i) (nchar (x % 10))) (x / 10) buf (i + 1) (q + 1)
        (omega arith) (omega arith))
]

-- The zeros of pad_loop() change nothing in front of them, and not the number.
abbrev pub Padded : (k n : ℕ) → Mem → (buf : ℕ) → ℕ × Mem → Type 0
Padded k n m buf (i, m') =
    (i ≡ n + k) × Digits (n + k) m' buf × (value_low (n + k) m' buf ≡ value_low n m buf)

value_low-zero :
    (n : ℕ) (m : Mem) (p : ℕ) → m (p + n) ≡ b'0' → value_low (suc n) m p ≡ value_low n m p
value_low-zero zero m p e = ground (arith, ap m (p_plus p) ∙ e)
  where
    p_plus : (p : ℕ) → p ≡ p + 0
    p_plus p = omega arith
value_low-zero (suc n) m p e = rw (value_low-zero n m (p + 1) (ap m (assoc p n) ∙ e)) refl
  where
    assoc : (p n : ℕ) → p + 1 + n ≡ p + suc n
    assoc p n = omega arith

-- With one zero behind `n` digits.
module _ (n : ℕ) (m : Mem) (buf : ℕ) where
  abbrev with_zero : Mem
  with_zero = write m (buf + n) b'0'

  with_zero-Digits : Digits n m buf → Digits (n + 1) with_zero buf
  with_zero-Digits digits j lt = elim (Bool-cases (j == n)) [
    | inl t ↦ ground arith
    | inr t ↦ ground (arith, digits j)
  ]

  value_low-with_zero : value_low (n + 1) with_zero buf ≡ value_low n m buf
  value_low-with_zero =
      ap (λ k. value_low k with_zero buf) {y = suc n} (omega arith)
      ∙ value_low-zero n with_zero buf (ground arith)
      ∙ value_low-same n m with_zero buf (λ j lt. ground arith)

Padded-next :
    (k n : ℕ) (m : Mem) (buf : ℕ) (r : ℕ × Mem)
    → Padded k (n + 1) (with_zero n m buf) buf r
    → Padded (suc k) n m buf r
Padded-next k n m buf (i, m') (e, digits, value) = (
  omega arith,
  (λ j lt. digits j (omega arith)),
  ap (λ l. value_low l m' buf) (assoc n k) ∙ value ∙ value_low-with_zero n m buf,
)
  where
    assoc : (n k : ℕ) → n + suc k ≡ n + 1 + k
    assoc n k = omega arith

pub pad_loop-Padded :
    (k n : ℕ) (m : Mem) (buf : ℕ) → Digits n m buf → Padded k n m buf (pad_loop k m buf n)
unfolding pad_loop
pad_loop-Padded zero n m buf digits =
    (omega arith, (λ j lt. digits j (omega arith)), ap (λ l. value_low l m buf) (right n))
  where
    right : (n : ℕ) → n + 0 ≡ n
    right n = omega arith
pad_loop-Padded (suc k) n m buf digits =
    Padded-next k n m buf (pad_loop k (with_zero n m buf) buf (n + 1))
      (pad_loop-Padded k (n + 1) (with_zero n m buf) buf (with_zero-Digits n m buf digits))
