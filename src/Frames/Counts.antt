-- ===== src/Frames/Counts.antt =====
-- arch/i686/pfalloc.c: allocation of page frames.
use ulmix_i.Base.{
  ℕ, zero, suc, ◌+◌, ◌*◌, ◌/◌, ◌%◌, ◌^◌, ◌<◌, ◌≤◌, ◌≡◌, ◌≢◌, inl, inr, some, arith, ◌==◌,
  Bool-cases,
}
use ulmix_i.Frames.{Pframes, update, page_size, first_free, get_free_page, alloc_page, release_page}

first_free_lem :
    (fuel : ℕ) (f : Pframes) (i j : ℕ)
    → i ≤ j
    → j < i + fuel
    → f j ≡ 0
    → ((k : ℕ) → i ≤ k → k < j → f k ≢ 0)
    → first_free fuel f i ≡ some j
unfolding first_free
first_free_lem zero f i j lo hi z least = absurd (omega arith)
first_free_lem (suc fuel) f i j lo hi z least = elim (Bool-cases (f i == 0)) [
  | inl e ↦ ground (arith, least i)
  | inr e ↦ rw e (
      first_free_lem fuel f (i + 1) j (ground arith) (omega arith) z
        (λ k a b. least k (omega arith) b))
]

-- When frame `j` is the first with no reference, and enough fuel is given to reach it, get_free_page()
-- returns the address of that frame, which now has one reference; no other count changes.
pub get_free_page_least :
    (fuel : ℕ) (f : Pframes) (j : ℕ)
    → j < fuel
    → j < 2 ^ 20
    → f j ≡ 0
    → ((k : ℕ) → k < j → f k ≢ 0)
    → (g : Pframes) × (get_free_page fuel f ≡ some (j * page_size, g))
      × (g j ≡ 1)
      × ((k : ℕ) → k ≢ j → g k ≡ f k)
unfolding get_free_page
get_free_page_least fuel f j enough small z least = (
  update f j ((f j + 1) % 2 ^ 8),
  ground (arith, first_free_lem fuel f 0 j (omega arith) (omega arith) z (λ k a b. least k b)),
  ground arith,
  λ k ne. ground arith,
)

-- Below 255 references, release_page() of the frame undoes alloc_page() of its address, which must be
-- a multiple of the page size below 4 GB.
release_page-alloc_page :
    (f : Pframes) (phys_addr k : ℕ)
    → phys_addr % page_size ≡ 0
    → phys_addr < 2 ^ 32
    → f (phys_addr / page_size) < 255
    → ((alloc_page phys_addr f).0 ≡ phys_addr)
      × (release_page (phys_addr / page_size) (alloc_page phys_addr f).1 k ≡ f k)
unfolding alloc_page release_page
release_page-alloc_page f a k aligned small few = ground arith

-- At 255 references one more makes the count 0: the frame counts as free although 256 hold it.
pub alloc_page_wraps :
    (f : Pframes) (phys_addr : ℕ)
    → phys_addr % page_size ≡ 0
    → f (phys_addr / page_size) ≡ 255
    → (alloc_page phys_addr f).1 (phys_addr / page_size) ≡ 0
unfolding alloc_page
alloc_page_wraps f a aligned full = ground arith

-- release_page() takes the number of a frame, get_free_page() returns an address: releasing what was
-- returned, for any frame but the first, leaves the frame with its reference.
release_page_of_address :
    (fuel : ℕ) (f : Pframes) (j : ℕ)
    → j < fuel
    → j < 2 ^ 20
    → 0 < j
    → f j ≡ 0
    → ((k : ℕ) → k < j → f k ≢ 0)
    → (g : Pframes) × (get_free_page fuel f ≡ some (j * page_size, g))
      × (release_page (j * page_size) g j ≡ 1)
unfolding release_page
release_page_of_address fuel f j enough small pos z least =
    let r = get_free_page_least fuel f j enough small z least in (r.0, r.1, ground (arith, r.2))
