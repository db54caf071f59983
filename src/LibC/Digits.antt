-- ===== src/LibC/Digits.antt =====
-- libc/string.c: the number that digits in memory stand for, and atoi().
use mathlib.Core.Path.{subst}
use native.Mathlib.Nat.{
  mod-add-mod, add-mul-mod_self_left, mod-add-div, add-mul, mul_assoc, mul_comm, mul-add,
}
use ulmix_i.Base.{
  ℕ, zero, suc, ◌+◌, ◌-◌, ◌*◌, ◌/◌, ◌%◌, ◌^◌, ◌<◌, ◌≤◌, ◌≡◌, ◌≢◌, ◌∙◌, refl, sym, ap, some, List,
  [], ◌∷◌, arith, length,
}
use ulmix_i.Base.Bits.{u32, sub32}
use ulmix_i.Base.Memory.{Mem, IsStr}
use ulmix_i.LibC.{atoi_loop, atoi, strlen}
use ulmix_i.LibC.Strings.{strlen-length}

-- The number that `n` digits stand for, with the lowest first and with the highest first.
abbrev pub value_low : ℕ → Mem → ℕ → ℕ
value_low zero m p = 0
value_low (suc n) m p = m p - b'0' + 10 * value_low n m (p + 1)

abbrev pub value_high : ℕ → Mem → ℕ → ℕ
value_high zero m p = 0
value_high (suc i) m p = m (p + i) - b'0' + 10 * value_high i m p

abbrev pub IsDigit : ℕ → Type 0
IsDigit c = (b'0' ≤ c) × (c ≤ b'9')

abbrev pub Digits : ℕ → Mem → ℕ → Type 0
Digits n m p = (j : ℕ) → j < n → IsDigit (m (p + j))

pub IsDigit-at : (m : Mem) (a b : ℕ) → a ≡ b → IsDigit (m a) → IsDigit (m b)
IsDigit-at m a b e d = subst (λ c. IsDigit (m c)) e d

pub value_high-value_low :
    (n : ℕ) (m m' : Mem) (p q : ℕ)
    → ((j : ℕ) → j < n → m' (p + j) ≡ m (q + (n - 1 - j)))
    → value_high n m' p ≡ value_low n m q
value_high-value_low zero m m' p q same = refl
value_high-value_low (suc n) m m' p q same =
    rw
      (
        head,
        value_high-value_low n m m' p (q + 1) (λ j lt. same j (omega arith) ∙ ap m (omega arith)),
      )
      refl
  where
    head : m' (p + n) ≡ m q
    head = same n (omega arith) ∙ ap m (omega arith)

pub value_low-same :
    (n : ℕ) (m m' : Mem) (p : ℕ)
    → ((j : ℕ) → j < n → m' (p + j) ≡ m (p + j))
    → value_low n m' p ≡ value_low n m p
value_low-same zero m m' p same = refl
value_low-same (suc n) m m' p same =
    rw
      (
        head,
        value_low-same n m m' (p + 1)
            (λ j lt. ap m' (omega arith) ∙ same (suc j) (omega arith) ∙ ap m (omega arith)),
      )
      refl
  where
    head : m' p ≡ m p
    head = ap m' (omega arith) ∙ same 0 (omega arith) ∙ ap m (omega arith)

-- The characters in memory as a list.
abbrev pub chars : ℕ → Mem → ℕ → List ℕ
chars zero m p = []
chars (suc n) m p = m p ∷ chars n m (p + 1)

pub length-chars : (n : ℕ) (m : Mem) (p : ℕ) → length (chars n m p) ≡ n
length-chars zero m p = refl
length-chars (suc n) m p = ap suc (length-chars n m (p + 1))

pub chars-IsStr : (n : ℕ) (m : Mem) (p : ℕ) → Digits n m p → m (p + n) ≡ 0 → IsStr m p (chars n m p)
chars-IsStr zero m p digits end = ap m (right p) ∙ end
  where
    right : (p : ℕ) → p ≡ p + 0
    right p = omega arith
chars-IsStr (suc n) m p digits end = (
  refl,
  nonzero,
  chars-IsStr n m (p + 1)
      (λ j lt. IsDigit-at m (p + suc j) (p + 1 + j) (omega arith) (digits (suc j) (omega arith)))
      (ap m (assoc p n) ∙ end),
)
  where
    assoc : (p n : ℕ) → p + 1 + n ≡ p + suc n
    assoc p n = omega arith

    nonzero : m p ≢ 0
    nonzero e =
        absurd (omega (arith, e, IsDigit-at m (p + 0) p (omega arith) (digits 0 (omega arith))))

mod_mul : (a b v k : ℕ) → (a % k + b % k * v) % k ≡ (a + b * v) % k
mod_mul a b v k =
    mod-add-mod a k (b % k * v)
    ∙ sym (add-mul-mod_self_left (a + b % k * v) k (b / k * v))
    ∙ ap (λ n. n % k) split
  where
    product : b * v ≡ b % k * v + k * (b / k * v)
    product =
        sym (ap (λ n. n * v) (mod-add-div b k))
        ∙ add-mul (b % k) (k * (b / k)) v
        ∙ ap (λ n. b % k * v + n) (mul_assoc k (b / k) v)

    split : a + b % k * v + k * (b / k * v) ≡ a + b * v
    split = omega (arith, product)

one_more : (x d base v : ℕ) → x + d * base + base * 10 * v ≡ x + base * (d + 10 * v)
one_more x d base v = omega (arith, mul_comm d base, mul-add base d (10 * v), mul_assoc base 10 v)

atoi_loop-value_high :
    (n : ℕ) (m : Mem) (p x base : ℕ)
    → Digits n m p
    → x < 2 ^ 32
    → atoi_loop n m p x base ≡ (x + base * value_high n m p) % 2 ^ 32
unfolding atoi_loop
atoi_loop-value_high zero m p x base digits small = omega arith
atoi_loop-value_high (suc i) m p x base digits small =
    atoi_loop-value_high i m p (u32 (x + sub32 c b'0' * base)) (u32 (base * 10))
      (λ j lt. digits j (omega arith)) (omega arith)
    ∙ mod_mul (x + sub32 c b'0' * base) (base * 10) (value_high i m p) (2 ^ 32)
    ∙ ap (λ d. (x + d * base + base * 10 * value_high i m p) % 2 ^ 32) digit
    ∙ ap (λ n. n % 2 ^ 32) (one_more x (c - b'0') base (value_high i m p))
  where
    c : ℕ
    c = m (p + i)

    digit : sub32 c b'0' ≡ c - b'0'
    digit = omega (arith, digits i (omega arith))

-- What utoa() leaves at `buf`: digits that stand for `x`, and a NUL.
abbrev pub Decimal : ℕ → Mem → (x buf : ℕ) → Type 0
Decimal n m x buf = Digits n m buf × (m (buf + n) ≡ 0) × (value_high n m buf ≡ x)

pub atoi-Decimal :
    (n fuel : ℕ) (m : Mem) (x buf : ℕ)
    → Decimal n m x buf
    → x < 2 ^ 32
    → n < fuel
    → fuel ≤ 2 ^ 32
    → atoi fuel m buf ≡ some x
unfolding atoi
atoi-Decimal n fuel m x buf (digits, nul, value) small enough fits =
    rw (length_is, atoi)
      (ap some (atoi_loop-value_high n m buf 0 1 digits (omega arith) ∙ omega (arith, value)))
  where
    length_is : strlen fuel m buf ≡ some n
    length_is =
        strlen-length (chars n m buf) fuel m buf (chars-IsStr n m buf digits nul)
          (omega (arith, length-chars n m buf)) (omega (arith, length-chars n m buf))
        ∙ ap some (length-chars n m buf)
