-- ===== src/Frames/Tests.antt =====
-- The theorems of arch/i686/pfalloc.c where the first two frames are in use.
use ulmix_i.Base.{ℕ, ◌≡◌, ◌≢◌, refl, arith, some, ltb, if◌then◌else◌}
use ulmix_i.Frames.{Pframes, get_free_page, alloc_page}
use ulmix_i.Frames.Counts.{get_free_page_least, alloc_page_wraps}

abbrev two_used : Pframes
two_used i = if ltb i 2 then 3 else 0

get_free_page_least_example :
    (g : Pframes) × (get_free_page 5 two_used ≡ some (8192, g))
    × (g 2 ≡ 1)
    × ((k : ℕ) → k ≢ 2 → g k ≡ two_used k)
get_free_page_least_example =
    get_free_page_least 5 two_used 2 (omega arith) (omega arith) refl (λ k lt. ground arith)

alloc_page_wraps_example : (alloc_page 4096 (λ _. 255)).1 1 ≡ 0
alloc_page_wraps_example = alloc_page_wraps (λ _. 255) 4096 refl refl
