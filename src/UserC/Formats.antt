-- ===== src/UserC/Formats.antt =====
-- userspace/stdlib/printf.c: sprintf() of plain text.
use mathlib.Core.Path.{subst}
use ulmix_i.Base.{
  ℕ, zero, suc, ◌+◌, ◌^◌, ◌<◌, ◌≤◌, ◌≡◌, ◌≢◌, ◌∙◌, ◌⊎◌, inl, inr, refl, ap, false, List, [], ◌∷◌,
  arith, ◌==◌, length,
}
use ulmix_i.Base.Bits.{u32}
use ulmix_i.Base.Memory.{Mem, write, Holds, IsStr, IsStr-frame}
use ulmix_i.UserC.{Printed, returned, sprintf_loop, sprintf}

abbrev pub IsPlain : List ℕ → Type 0
IsPlain [] = Unit {0}
IsPlain (c ∷ s) = (c ≢ b'%') × IsPlain s

-- The `n` bytes at `buf` and the string of `n` characters at `format` do not overlap.
abbrev pub Apart : (buf format n : ℕ) → Type 0
Apart buf format n = (buf + n ≤ format) ⊎ (format + n < buf)

Apart-next : (buf format n : ℕ) → Apart buf format (suc n) → Apart (buf + 1) (format + 1) n
Apart-next buf format n (inl h) = inl (omega arith)
Apart-next buf format n (inr h) = inr (omega arith)

Apart-outside :
    (buf format n : ℕ)
    → Apart buf format (suc n)
    → (a : ℕ) → format ≤ a
    → a < format + suc n + 1
    → buf ≢ a
Apart-outside buf format n (inl h) a lo hi = omega arith
Apart-outside buf format n (inr h) a lo hi = omega arith

-- The text, and nothing else, has been written.
abbrev pub Plain : Mem → (buf length : ℕ) → List ℕ → Printed → Type 0
Plain m buf len s r =
    (m' : Mem) × (r ≡ returned len m')
    × Holds m' buf s
    × ((a : ℕ) → (a < buf) ⊎ (buf + length s ≤ a) → m' a ≡ m a)

Plain-next :
    (m : Mem) (buf len c : ℕ) (s : List ℕ) (r : Printed)
    → Plain (write m buf c) (buf + 1) len s r
    → Plain m buf len (c ∷ s) r
Plain-next m buf len c s r (m', e, h, kept) = (
  m',
  e,
  (kept buf (inl (omega arith)) ∙ ground arith, h),
  λ a o. kept a (wider o) ∙ ground arith,
)
  where
    wider :
        {a : ℕ} → (a < buf) ⊎ (buf + suc (length s) ≤ a) → (a < buf + 1) ⊎ (buf + 1 + length s ≤ a)
    wider (inl h) = inl (omega arith)
    wider (inr h) = inr (omega arith)

sprintf_loop_stop :
    (rounds fuel : ℕ) (m : Mem) (text : ℕ → ℕ) (strbuf buf format done len : ℕ) (args : List ℕ)
    → m format ≡ 0
    → sprintf_loop (suc rounds) fuel m text strbuf buf format done len args ≡ returned done m
unfolding sprintf_loop
sprintf_loop_stop rounds fuel m text strbuf buf format done len args h = rw (h, sprintf_loop) refl

sprintf_loop_plain :
    (rounds fuel : ℕ) (m : Mem) (text : ℕ → ℕ) (strbuf buf format done len c : ℕ) (args : List ℕ)
    → m format ≡ c
    → c ≢ 0
    → c ≢ b'%'
    → done + 1 < 2 ^ 32
    → sprintf_loop (suc rounds) fuel m text strbuf buf format done len args
      ≡ sprintf_loop rounds fuel
          (write m buf c)
          text
          strbuf
          (buf + 1)
          (format + 1)
          (done + 1)
          len
          args
unfolding sprintf_loop
sprintf_loop_plain rounds fuel m text strbuf buf format done len c args h nz np small =
    rw (h, not_nul, not_percent, fits, sprintf_loop) refl
  where
    not_nul : (c == 0) ≡ false
    not_nul = ground arith

    not_percent : (c == b'%') ≡ false
    not_percent = ground arith

    fits : u32 (done + 1) ≡ done + 1
    fits = omega arith

sprintf_loop-Plain :
    (s : List ℕ) (rounds fuel : ℕ) (m : Mem) (text : ℕ → ℕ) (strbuf buf format done len : ℕ)
    (args : List ℕ)
    → IsStr m format s
    → IsPlain s
    → Apart buf format (length s)
    → length s < rounds
    → done + length s < 2 ^ 32
    → Plain m buf
        (done + length s)
        s
        (sprintf_loop rounds fuel m text strbuf buf format done len args)
sprintf_loop-Plain s zero fuel m text strbuf buf format done len args h p apart enough small =
    absurd (omega arith)
sprintf_loop-Plain [] (suc rounds) fuel m text strbuf buf format done len args h p apart enough
      small =
    (
      m,
      sprintf_loop_stop rounds fuel m text strbuf buf format done len args h
          ∙ ap (λ n. returned n m) {x = done} (omega arith),
      tt,
      λ a o. refl,
    )
sprintf_loop-Plain (c ∷ s) (suc rounds) fuel m text strbuf buf format done len args (h, nz, hs)
      (np, ps) apart enough small =
    rw
      (sprintf_loop_plain rounds fuel m text strbuf buf format done len c args h nz np
        (omega arith))
      (Plain-next m buf (done + suc (length s)) c s _ (
        subst
          (λ n. Plain (write m buf c) (buf + 1) n s (
            sprintf_loop rounds fuel (write m buf c) text strbuf (buf + 1) (format + 1) (done + 1)
              len args))
          {x = done + 1 + length s} (omega arith)
          (sprintf_loop-Plain s rounds fuel (write m buf c) text strbuf (buf + 1) (format + 1)
            (done + 1) len args still ps (Apart-next buf format (length s) apart) (omega arith)
            (omega arith))))
  where
    still : IsStr (write m buf c) (format + 1) s
    still = IsStr-frame m (write m buf c) (format + 1) s hs (λ a lo hi.
        ground (arith, Apart-outside buf format (length s) apart a (omega arith) (omega arith)))

-- sprintf() of a format without conversions returns its length and writes its characters at `buf`, but no
-- NUL behind them: what stood there stays, as does all other memory.
sprintf_unterminated :
    (c : ℕ) (s : List ℕ) (rounds fuel : ℕ) (m : Mem) (text : ℕ → ℕ) (strbuf buf format : ℕ)
    (args : List ℕ)
    → IsStr m format (c ∷ s)
    → IsPlain (c ∷ s)
    → Apart buf format (length (c ∷ s))
    → length (c ∷ s) < rounds
    → length (c ∷ s) < 2 ^ 32
    → Plain m buf (length (c ∷ s)) (c ∷ s) (sprintf rounds fuel m text strbuf buf format args)
unfolding sprintf
sprintf_unterminated c s rounds fuel m text strbuf buf format args h p apart enough small =
    first_byte (sprintf rounds fuel m text strbuf buf format args) (
      subst
        (λ n.
          Plain (write m buf 0) buf n (c ∷ s) (sprintf rounds fuel m text strbuf buf format args))
        {x = 0 + length (c ∷ s)} (omega arith)
        (sprintf_loop-Plain (c ∷ s) rounds fuel (write m buf 0) text strbuf buf format 0 0 args
          still p apart enough (omega arith)))
  where
    still : IsStr (write m buf 0) format (c ∷ s)
    still =
        IsStr-frame m (write m buf 0) format (c ∷ s) h
          (λ a lo hi. ground (arith, Apart-outside buf format (length s) apart a lo hi))

    first_byte :
        (r : Printed)
        → Plain (write m buf 0) buf (length (c ∷ s)) (c ∷ s) r
        → Plain m buf (length (c ∷ s)) (c ∷ s) r
    first_byte r (m', e, hs, kept) = (m', e, hs, λ a o. kept a o ∙ other o)
      where
        other : {a : ℕ} → (a < buf) ⊎ (buf + length (c ∷ s) ≤ a) → write m buf 0 a ≡ m a
        other (inl h) = ground arith
        other (inr h) = ground arith
