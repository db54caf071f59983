-- ===== src/LibC/Copies.antt =====
-- libc/string.c: what memset(), memcpy(), bzero(), strcpy() and strcat() leave in memory.
use ulmix_i.Base.{
  ℕ, zero, suc, ◌+◌, ◌-◌, ◌<◌, ◌≤◌, ◌≡◌, ◌⊎◌, inl, inr, refl, Bool, ◌&&◌, some, List, [], ◌∷◌,
  arith, ltb, leb, if◌then◌else◌, length,
}
use ulmix_i.Base.Memory.{Mem, write, IsStr, IsStr-frame}
use ulmix_i.LibC.{memset, memcpy, bzero, copy_loop, strcpy, str_end, strcat}

-- `a` is one of the `n` addresses from `p` on.
abbrev pub within : (p n a : ℕ) → Bool
within p n a = leb p a && ltb a (p + n)

-- A copy from low to high addresses that does not overwrite what it has yet to read.
abbrev pub Forward : (dest src n : ℕ) → Type 0
Forward dest src n = (dest ≤ src) ⊎ (src + n ≤ dest)

-- memset() sets exactly the `n` bytes from `mem` on.
pub memset-within :
    (n : ℕ) (m : Mem) (mem value a : ℕ)
    → memset m mem value n a ≡ (if within mem n a then value else m a)
unfolding memset
memset-within zero m mem value a = ground arith
memset-within (suc n) m mem value a =
    ground (arith, memset-within n (write m mem value) (mem + 1) value a)

pub bzero-memset : (n : ℕ) (m : Mem) (s : ℕ) → bzero m s n ≡ memset m s 0 n
unfolding bzero memset
bzero-memset zero m s = refl
bzero-memset (suc n) m s = bzero-memset n (write m s 0) (s + 1)

-- memcpy() gives each of the `n` bytes from `dest` on the byte that stood at the same place from `src`
-- on, and changes no other byte. The regions may overlap if `dest` is not above `src`.
pub memcpy-within :
    (n : ℕ) (m : Mem) (dest src a : ℕ)
    → Forward dest src n
    → memcpy m dest src n a ≡ (if within dest n a then m (src + (a - dest)) else m a)
unfolding memcpy
memcpy-within zero m dest src a fwd = ground arith
memcpy-within (suc n) m dest src a (inl le) =
    ground
      (arith, memcpy-within n (write m dest (m src)) (dest + 1) (src + 1) a (inl (omega arith)))
memcpy-within (suc n) m dest src a (inr le) =
    ground
      (arith, memcpy-within n (write m dest (m src)) (dest + 1) (src + 1) a (inr (omega arith)))

copy_loop-memcpy :
    (xs : List ℕ) (fuel : ℕ) (m : Mem) (dest src : ℕ)
    → IsStr m src xs
    → Forward dest src (length xs + 1)
    → length xs < fuel
    → copy_loop fuel m dest src ≡ some (memcpy m dest src (length xs + 1))
unfolding copy_loop memcpy
copy_loop-memcpy xs zero m dest src s fwd enough = absurd (omega arith)
copy_loop-memcpy [] (suc fuel) m dest src s fwd enough = simp s
copy_loop-memcpy (x ∷ xs) (suc fuel) m dest src s fwd enough =
    rw
      (copy_loop-memcpy xs fuel (write m dest (m src)) (dest + 1) (src + 1)
        (IsStr-frame m (write m dest (m src)) (src + 1) xs s.2 (λ a lo hi. kept a lo hi fwd))
        (next fwd) (omega arith))
      (ground (arith, s.0, s.1))
  where
    kept :
        (a : ℕ)
        → src + 1 ≤ a
        → a < src + 1 + length xs + 1
        → Forward dest src (suc (length xs) + 1)
        → write m dest (m src) a ≡ m a
    kept a lo hi (inl le) = ground arith
    kept a lo hi (inr le) = ground arith

    next : Forward dest src (suc (length xs) + 1) → Forward (dest + 1) (src + 1) (length xs + 1)
    next (inl le) = inl (omega arith)
    next (inr le) = inr (omega arith)

-- strcpy() of a string is memcpy() of its characters and its NUL, and returns `dest`, with any fuel
-- above the length, when the copy is a forward one.
pub strcpy-memcpy :
    (xs : List ℕ) (fuel : ℕ) (m : Mem) (dest src : ℕ)
    → IsStr m src xs
    → Forward dest src (length xs + 1)
    → length xs < fuel
    → strcpy fuel m dest src ≡ some (dest, memcpy m dest src (length xs + 1))
unfolding strcpy
strcpy-memcpy xs fuel m dest src s fwd enough =
    rw (copy_loop-memcpy xs fuel m dest src s fwd enough, strcpy)

str_end-length :
    (xs : List ℕ) (fuel : ℕ) (m : Mem) (dest : ℕ)
    → IsStr m dest xs
    → length xs < fuel
    → str_end fuel m dest ≡ some (dest + length xs)
unfolding str_end
str_end-length xs zero m dest s enough = absurd (omega arith)
str_end-length [] (suc fuel) m dest s enough = ground (arith, s)
str_end-length (x ∷ xs) (suc fuel) m dest s enough =
    ground (arith, s.0, s.1, str_end-length xs fuel m (dest + 1) s.2 (omega arith))

-- strcat() copies the string at `src` with its NUL to the end of the string at `dest`, and returns
-- `dest`, with any fuel above both lengths, when that copy is a forward one.
strcat-memcpy :
    (ds xs : List ℕ) (fuel : ℕ) (m : Mem) (dest src : ℕ)
    → IsStr m dest ds
    → IsStr m src xs
    → Forward (dest + length ds) src (length xs + 1)
    → length ds < fuel
    → length xs < fuel
    → strcat fuel m dest src ≡ some (dest, memcpy m (dest + length ds) src (length xs + 1))
unfolding strcat
strcat-memcpy ds xs fuel m dest src sd ss fwd enough enough' = rw (
  str_end-length ds fuel m dest sd enough,
  copy_loop-memcpy xs fuel m (dest + length ds) src ss fwd enough',
  strcat,
)
