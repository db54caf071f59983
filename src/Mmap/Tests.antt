-- ===== src/Mmap/Tests.antt =====
-- The theorems of kernel/memory/mmap.c at an address space with two regions.
use ulmix_i.Base.{ℕ, ◌≡◌, refl, inl, arith, List, [], ◌∷◌}
use ulmix_i.Base.Int.{neg}
use ulmix_i.Errno.{econflict}
use ulmix_i.Mmap.{
  Region, mm_conflicts, mm_mk_region, mm_mod_region, mm_del_region, unlink, returned, Changed,
}
use ulmix_i.Mmap.Regions.{IsDisjoint, MadeDisjoint, mm_mk_region-Disjoint}

abbrev region : ℕ → ℕ → ℕ → Region
region p a b = record { self = p; start = a; end = b; size = 0x1000; flags = 1 }

abbrev two_regions : List Region
two_regions = region 100 0x1000 0x2000 ∷ region 200 0x4000 0x5000 ∷ []

two_regions-IsDisjoint : IsDisjoint two_regions
two_regions-IsDisjoint = (omega arith, (inl (omega arith), tt), (omega arith, tt, tt))

mm_mk_region-Disjoint_example :
    MadeDisjoint two_regions 0x2000 0x3000 (mm_mk_region 300 two_regions 0x2000 0x3000 1)
mm_mk_region-Disjoint_example =
    mm_mk_region-Disjoint 300 two_regions 0x2000 0x3000 1 (omega arith) (omega arith)
      two_regions-IsDisjoint

-- A change that conflicts with another region loses the region that it should have changed.
mod_region_loses :
    mm_mod_region
      (region 1 0 0x1000 ∷ region 2 0x1000 0x2000 ∷ region 3 0x2000 0x3000 ∷ [])
      2
      0
      0x1000
      1
    ≡ returned (neg econflict) (region 1 0 0x1000 ∷ region 3 0x2000 0x3000 ∷ [])
unfolding mm_mod_region unlink mm_conflicts
mod_region_loses = refl

-- The first region has no node in front of it.
del_first_faults : mm_del_region two_regions 100 ≡ Changed.fault
unfolding mm_del_region unlink
del_first_faults = refl
