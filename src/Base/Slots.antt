-- ===== src/Base/Slots.antt =====
-- The kernel's fixed tables of pointers: NULL is `none`; a loop takes the first slot that fits.
use Prim.Native.Nat.{ℕ, suc}
use mathlib.Core.Path.{◌≡◌, refl}
use mathlib.Core.Logic.{◌↔◌}
use mathlib.Core.Bool.{Bool, true, false}
use mathlib.Core.List.{List, [], ◌∷◌}
use mathlib.Core.Option.{Option, none, some}
use native.Mathlib.Omega.{arith}
use ulmix_i.Base.Tests.{if◌then◌else◌}
use ulmix_i.Base.Lists.{length}

module _ {ℓ} {A : Type ℓ} where
  abbrev pub also : Option A → Option (List (Option A)) → Option (List (Option A))
  also x none = none
  also x (some xs) = some (x ∷ xs)

  -- `for (i …) if (table[i] == NULL) { table[i] = a; return 0; }`; `none` when no slot is free.
  unfoldable pub claim : A → List (Option A) → Option (List (Option A))
  claim a [] = none
  claim a (none ∷ xs) = some (some a ∷ xs)
  claim a (some b ∷ xs) = also (some b) (claim a xs)

  -- `for (i …) if (table[i] != NULL && fits(table[i])) return table[i];`
  unfoldable pub find : (A → Bool) → List (Option A) → Option A
  find fits [] = none
  find fits (none ∷ xs) = find fits xs
  find fits (some a ∷ xs) = let rest = find fits xs in if fits a then some a else rest

  unfoldable pub free_slots : List (Option A) → ℕ
  free_slots [] = 0
  free_slots (none ∷ xs) = suc (free_slots xs)
  free_slots (some a ∷ xs) = free_slots xs

  -- Where a registration leaves the table: one slot less, its size, and what a search finds.
  abbrev pub Registered : A → List (Option A) → Option (List (Option A)) → Type ℓ
  Registered a xs none = Unit
  Registered a xs (some ys) =
      ((fits : A → Bool) → fits a ≡ false → find fits ys ≡ find fits xs)
      × ((fits : A → Bool) → find fits xs ≡ none → fits a ≡ true → find fits ys ≡ some a)
      × (length ys ≡ length xs)
      × (free_slots xs ≡ suc (free_slots ys))

  pub claim-none : (a : A) (xs : List (Option A)) → (claim a xs ≡ none) ↔ (free_slots xs ≡ 0)
  unfolding claim free_slots
  claim-none a [] = ground arith
  claim-none a (none ∷ xs) = ground arith
  claim-none a (some b ∷ xs) = ground (arith, claim-none a xs)

  Registered-behind :
      (a b : A) (xs : List (Option A)) (r : Option (List (Option A)))
      → Registered a xs r
      → Registered a (some b ∷ xs) (also (some b) r)
  unfolding find free_slots
  Registered-behind a b xs none h = tt
  Registered-behind a b xs (some ys) h = (
    (λ fits e. ground (arith, h.0 fits)),
    (λ fits e t. ground (arith, h.1 fits)),
    omega (arith, h.2),
    h.3,
  )

  Registered-next : (a : A) (xs : List (Option A)) → Registered a (none ∷ xs) (some (some a ∷ xs))
  unfolding find free_slots
  Registered-next a xs = ((λ fits e. ground arith), (λ fits e t. ground arith), refl, refl)

  pub claim-Registered : (a : A) (xs : List (Option A)) → Registered a xs (claim a xs)
  unfolding claim
  claim-Registered a [] = tt
  claim-Registered a (none ∷ xs) = Registered-next a xs
  claim-Registered a (some b ∷ xs) = Registered-behind a b xs (claim a xs) (claim-Registered a xs)
