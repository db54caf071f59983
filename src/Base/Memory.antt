-- ===== src/Base/Memory.antt =====
-- Memory as bytes by address, and the C strings in it.
use Prim.Native.Nat.{ℕ, ◌+◌, ◌<◌, ◌≤◌}
use mathlib.Core.Path.{◌≡◌, ◌∙◌}
use mathlib.Core.Logic.{◌≢◌}
use mathlib.Core.List.{List, [], ◌∷◌}
use native.Mathlib.Omega.{arith}
use ulmix_i.Base.Tests.{◌==◌, if◌then◌else◌}
use ulmix_i.Base.Lists.{length}

abbrev pub Mem : Type 0
Mem = ℕ → ℕ

abbrev pub write : Mem → ℕ → ℕ → Mem
write m a v b = if a == b then v else m b

-- The bytes at `p` are `xs`.
abbrev pub Holds : Mem → ℕ → List ℕ → Type 0
Holds m p [] = Unit {0}
Holds m p (x ∷ xs) = (m p ≡ x) × Holds m (p + 1) xs

-- At `p` stands a string with the characters `xs`, none of them NUL, and a NUL behind them.
abbrev pub IsStr : Mem → ℕ → List ℕ → Type 0
IsStr m p [] = m p ≡ 0
IsStr m p (x ∷ xs) = (m p ≡ x) × (x ≢ 0) × IsStr m (p + 1) xs

pub IsStr-frame :
    (m m' : Mem) (p : ℕ) (xs : List ℕ)
    → IsStr m p xs
    → ((a : ℕ) → p ≤ a → a < p + length xs + 1 → m' a ≡ m a)
    → IsStr m' p xs
IsStr-frame m m' p [] s same = same p (omega arith) (omega arith) ∙ s
IsStr-frame m m' p (x ∷ xs) s same = (
  same p (omega arith) (omega arith) ∙ s.0,
  s.1,
  IsStr-frame m m' (p + 1) xs s.2 (λ a lo hi. same a (omega arith) (omega arith)),
)
