-- ===== src/LibC/Strings.antt =====
-- libc/string.c: strlen(), strcmp() and reverse() on C strings.
use ulmix_i.Base.{
  ℕ, zero, suc, ◌+◌, ◌%◌, ◌-◌, ◌^◌, ◌<◌, ◌≤◌, ◌≡◌, ◌≢◌, ◌↔◌, ◌∙◌, inl, inr, refl, Bool, true, false,
  ◌&&◌, some, List, [], ◌∷◌, arith, ltb, leb, ◌==◌, if◌then◌else◌, Bool-cases, length,
}
use ulmix_i.Base.Int.{ℤ, pos, negsuc}
use ulmix_i.Base.Memory.{Mem, write, IsStr}
use ulmix_i.LibC.{strlen_loop, strlen, strcmp_loop, strcmp, char_lt, swap_loop, reverse}
use ulmix_i.LibC.Copies.{within}

strlen_loop-length :
    (xs : List ℕ) (fuel : ℕ) (m : Mem) (s len : ℕ)
    → IsStr m s xs
    → length xs < fuel
    → len + length xs < 2 ^ 32
    → strlen_loop fuel m s len ≡ some (len + length xs)
unfolding strlen_loop
strlen_loop-length xs zero m s len str enough small = absurd (omega arith)
strlen_loop-length [] (suc fuel) m s len str enough small = ground (arith, str)
strlen_loop-length (x ∷ xs) (suc fuel) m s len str enough small = ground (
  arith,
  str.0,
  str.1,
  strlen_loop-length xs fuel m (s + 1) (len + 1) str.2 (omega arith) (omega arith),
)

-- strlen() is the number of characters in front of the NUL, if that is below 2 ^ 32, with any fuel above it.
pub strlen-length :
    (xs : List ℕ) (fuel : ℕ) (m : Mem) (s : ℕ)
    → IsStr m s xs
    → length xs < fuel
    → length xs < 2 ^ 32
    → strlen fuel m s ≡ some (length xs)
unfolding strlen
strlen-length xs fuel m s str enough small =
    ground (arith, strlen_loop-length xs fuel m s 0 str enough (omega arith))

-- `a` is less than `b`, as signed bytes: one of 128 or more is negative.
abbrev pub signed_lt : ℕ → ℕ → Bool
signed_lt a b =
    if leb 128 (a % 256)
    then (if leb 128 (b % 256) then ltb (a % 256) (b % 256) else true)
    else (if leb 128 (b % 256) then false else ltb (a % 256) (b % 256))

char_lt-signed_lt : (a b : ℕ) → char_lt a b ≡ signed_lt a b
unfolding char_lt
char_lt-signed_lt a b = ground arith

-- The order of strings that strcmp() is to have.
abbrev pub order : List ℕ → List ℕ → ℤ
order [] [] = pos 0
order [] (y ∷ ys) = if signed_lt 0 y then negsuc 0 else pos 1
order (x ∷ xs) [] = if signed_lt x 0 then negsuc 0 else pos 1
order (x ∷ xs) (y ∷ ys) = if x == y then order xs ys else if signed_lt x y then negsuc 0 else pos 1

strcmp_loop-order :
    (xs ys : List ℕ) (fuel : ℕ) (m : Mem) (s1 s2 : ℕ)
    → IsStr m s1 xs
    → IsStr m s2 ys
    → length xs < fuel
    → strcmp_loop fuel m s1 s2 ≡ some (order xs ys)
unfolding strcmp_loop
strcmp_loop-order xs ys zero m s1 s2 a b enough = absurd (omega arith)
strcmp_loop-order [] [] (suc fuel) m s1 s2 a b enough = ground (arith, a, b)
strcmp_loop-order [] (y ∷ ys) (suc fuel) m s1 s2 a b enough =
    ground (arith, a, b.0, b.1, char_lt-signed_lt 0 y)
strcmp_loop-order (x ∷ xs) [] (suc fuel) m s1 s2 a b enough =
    ground (arith, a.0, a.1, b, char_lt-signed_lt x 0)
strcmp_loop-order (x ∷ xs) (y ∷ ys) (suc fuel) m s1 s2 a b enough = ground (
  arith,
  a.0,
  a.1,
  b.0,
  b.1,
  char_lt-signed_lt x y,
  strcmp_loop-order xs ys fuel m (s1 + 1) (s2 + 1) a.2 b.2 (omega arith),
)

sign_nonzero : (b : Bool) → (if b then negsuc 0 else pos 1) ≢ pos 0
sign_nonzero true = λ e. cc
sign_nonzero false = λ e. cc

order-zero : (xs ys : List ℕ) → order xs ys ≡ pos 0 → xs ≡ ys
order-zero [] [] e = refl
order-zero [] (y ∷ ys) e = absurd (sign_nonzero (signed_lt 0 y) e)
order-zero (x ∷ xs) [] e = absurd (sign_nonzero (signed_lt x 0) e)
order-zero (x ∷ xs) (y ∷ ys) e = elim (Bool-cases (x == y)) [
  | inl t ↦ ground (arith, order-zero xs ys)
  | inr t ↦ ground (arith, sign_nonzero (signed_lt x y))
]

order_self : (xs : List ℕ) → order xs xs ≡ pos 0
order_self [] = refl
order_self (x ∷ xs) = ground (arith, order_self xs)

-- strcmp() of two strings answers by the first character in which they differ, as signed bytes, with any
-- fuel above the length of the first; and it answers 0 exactly when the strings are equal.
pub strcmp-order :
    (xs ys : List ℕ) (fuel : ℕ) (m : Mem) (s1 s2 : ℕ)
    → IsStr m s1 xs
    → IsStr m s2 ys
    → length xs < fuel
    → (strcmp fuel m s1 s2 ≡ some (order xs ys)) × ((order xs ys ≡ pos 0) ↔ (xs ≡ ys))
unfolding strcmp
strcmp-order xs ys fuel m s1 s2 a b enough = (
  strcmp_loop-order xs ys fuel m s1 s2 a b enough,
  (order-zero xs ys, (λ e. rw e (order_self ys))),
)

-- The byte at `a` after the places `i` to `j1 - 1` of the string at `s` are swapped end for end.
abbrev pub swapped : Mem → (s i j1 a : ℕ) → ℕ
swapped m s i j1 a = if leb (s + i) a && ltb a (s + j1) then m (s + i + (s + j1 - 1 - a)) else m a

abbrev swap_ends : Mem → (s i j1 : ℕ) → Mem
swap_ends m s i j1 = write (write m (s + i) (m (s + (j1 - 1)))) (s + (j1 - 1)) (m (s + i))

swapped-swap_ends :
    (m : Mem) (s i j1 a : ℕ)
    → i + 1 < j1
    → swapped (swap_ends m s i j1) s (i + 1) (j1 - 1) a ≡ swapped m s i j1 a
swapped-swap_ends m s i j1 a lt = ground arith

pub swap_loop-swapped :
    (fuel : ℕ) (m : Mem) (s i j1 a : ℕ)
    → j1 ≤ i + fuel
    → swap_loop fuel m s i j1 a ≡ swapped m s i j1 a
unfolding swap_loop
swap_loop-swapped zero m s i j1 a enough = ground arith
swap_loop-swapped (suc fuel) m s i j1 a enough = elim (Bool-cases (ltb (i + 1) j1)) [
  | inl t ↦ rw t (
      swap_loop-swapped fuel (swap_ends m s i j1) s (i + 1) (j1 - 1) a (omega arith)
      ∙ swapped-swap_ends m s i j1 a (ground arith))
  | inr t ↦ rw t (ground arith)
]

pub reverse-swap_loop :
    (xs : List ℕ) (fuel : ℕ) (m : Mem) (s : ℕ)
    → IsStr m s xs
    → length xs < fuel
    → length xs < 2 ^ 32
    → reverse fuel m s ≡ some (swap_loop (length xs) m s 0 (length xs))
unfolding reverse
reverse-swap_loop xs fuel m s str enough small =
    rw (strlen-length xs fuel m s str enough small, reverse)

-- reverse() of a string gives each of its characters the one at the same distance from the other end, and
-- changes no other byte, the NUL included, with any fuel above the length.
reverse-within :
    (xs : List ℕ) (fuel : ℕ) (m : Mem) (s a : ℕ)
    → IsStr m s xs
    → length xs < fuel
    → length xs < 2 ^ 32
    → (m' : Mem) × (reverse fuel m s ≡ some m')
      × (m' a ≡ (if within s (length xs) a then m (s + (s + length xs - 1 - a)) else m a))
unfolding reverse
reverse-within xs fuel m s a str enough small = (
  swap_loop (length xs) m s 0 (length xs),
  rw (strlen-length xs fuel m s str enough small, reverse),
  swap_loop-swapped (length xs) m s 0 (length xs) a (omega arith) ∙ ground arith,
)
