-- ===== src/Base/Bits.antt =====
-- Machine words of 8, 16 and 32 bits, single bits, and `|` of disjoint fields as a sum.
use Prim.Native.Nat.{ℕ, zero, suc, ◌+◌, ◌-◌, ◌*◌, ◌/◌, ◌%◌, ◌^◌, ◌≤◌, ◌<◌, max}
use Prim.Native.Nat.{bit_or, digits, bit_or-bitwise}
use mathlib.Core.Path.{◌≡◌, refl, ap}
use mathlib.Core.Bool.{Bool}
use native.Mathlib.Omega.{arith}
use native.Mathlib.Nat.{pow-suc}
use ulmix_i.Base.Tests.{◌==◌}

abbrev pub u8 : ℕ → ℕ
u8 n = n % 2 ^ 8

abbrev pub u16 : ℕ → ℕ
u16 n = n % 2 ^ 16

abbrev pub u32 : ℕ → ℕ
u32 n = n % 2 ^ 32

-- `a - b` in `unsigned long`, for operands below 2 ^ 32.
abbrev pub sub32 : ℕ → ℕ → ℕ
sub32 a b = (a + 2 ^ 32 - b) % 2 ^ 32

-- `x & BIT(k)` as a test.
abbrev pub has_bit : ℕ → ℕ → Bool
has_bit x k = x / 2 ^ k % 2 == 1

-- `|` reads the binary digits of its operands; the number of digits it looks at does not matter
-- once it covers the first operand.
or_rounds : ℕ → ℕ → ℕ → ℕ
or_rounds n a b = digits (λ y. y) max n a b

rounds_enough : (n m a b : ℕ) → a ≤ n → a ≤ m → or_rounds n a b ≡ or_rounds m a b
unfolding or_rounds
rounds_enough zero zero a b p q = refl
rounds_enough (suc n) zero zero b p q = refl
rounds_enough zero (suc m) zero b p q = refl
rounds_enough (suc n) (suc m) zero b p q = refl
rounds_enough zero m (suc a) b p q = absurd (omega arith)
rounds_enough (suc n) zero (suc a) b p q = absurd (omega arith)
rounds_enough (suc n) (suc m) (suc a) b p q =
    omega (arith, rounds_enough n m (suc a / 2) (b / 2) (omega arith) (omega arith))

lowest_digit : (a b : ℕ) → bit_or a b ≡ bit_or (a / 2) (b / 2) * 2 + max (a % 2) (b % 2)
unfolding or_rounds
lowest_digit zero b = omega (arith, bit_or-bitwise 0 b, bit_or-bitwise 0 (b / 2))
lowest_digit (suc a) b = omega (
  arith,
  bit_or-bitwise (suc a) b,
  bit_or-bitwise (suc a / 2) (b / 2),
  rounds_enough a (suc a / 2) (suc a / 2) (b / 2) (omega arith) (omega arith),
)

or_zero_below : (n a : ℕ) → a ≤ n → bit_or a 0 ≡ a
or_zero_below n zero h = refl
or_zero_below zero (suc a) h = absurd (omega arith)
or_zero_below (suc n) (suc a) h =
    omega (arith, lowest_digit (suc a) 0, or_zero_below n (suc a / 2) (omega arith))

pub bit_or-zero : (a : ℕ) → bit_or a 0 ≡ a
bit_or-zero a = or_zero_below a a (omega arith)

-- A field above bit `k` joined to one below it.
pub bit_or-eq-add : (k q r : ℕ) → r < 2 ^ k → bit_or (q * 2 ^ k) r ≡ q * 2 ^ k + r
bit_or-eq-add zero q r h = ground (arith, bit_or-zero q)
bit_or-eq-add (suc k) q r h = ground (
  arith,
  pow-suc 2 k,
  ap (λ (t : ℕ). q * t) (pow-suc 2 k),
  lowest_digit (q * 2 ^ suc k) r,
  bit_or-eq-add k q (r / 2) (omega (arith, pow-suc 2 k)),
)

bit_or_comm_below : (n a b : ℕ) → a ≤ n → b ≤ n → bit_or a b ≡ bit_or b a
bit_or_comm_below n zero zero ha hb = refl
bit_or_comm_below zero (suc a) b ha hb = absurd (omega arith)
bit_or_comm_below zero zero (suc b) ha hb = absurd (omega arith)
bit_or_comm_below (suc n) (suc a) b ha hb = omega (
  arith,
  lowest_digit (suc a) b,
  lowest_digit b (suc a),
  bit_or_comm_below n (suc a / 2) (b / 2) (omega arith) (omega arith),
)
bit_or_comm_below (suc n) zero (suc b) ha hb = omega (
  arith,
  lowest_digit 0 (suc b),
  lowest_digit (suc b) 0,
  bit_or_comm_below n (0 / 2) (suc b / 2) (omega arith) (omega arith),
)

pub bit_or_comm : (a b : ℕ) → bit_or a b ≡ bit_or b a
bit_or_comm a b = bit_or_comm_below (a + b) a b (omega arith) (omega arith)
