-- ===== src/Mmap.antt =====
-- kernel/memory/mmap.c with kernel/include/mmap.h: the user memory regions of an address space.
-- `user_regions` is the list of the nodes that `next_region` links, each with its address `self`;
-- the back links of such a list are those of the list. The build defines _DEBUG_, so ASSERT(0) stops
-- the kernel (`panicked`); NULL dereferenced is a `fault`.
pub mod Regions
mod Tests
use ulmix_i.Base.{
  ℕ, ◌+◌, ◌-◌, ◌*◌, ◌%◌, ◌^◌, Bool, true, false, ◌&&◌, ◌||◌, Option, none, some, List, [], ◌∷◌, ltb,
  leb, ◌==◌, if◌then◌else◌,
}
use ulmix_i.Base.Bits.{sub32}
use ulmix_i.Base.Int.{ℤ, neg}
use ulmix_i.Errno.{econflict}

-- struct mmr_struct
pub record Region : Type 0 where
  pub self : ℕ
  pub start : ℕ
  pub end : ℕ
  pub size : ℕ
  pub flags : ℕ

pub mm_conflicts : List Region → ℕ → ℕ → Bool
mm_conflicts [] start end = false
mm_conflicts (region ∷ rs) start end =
    (leb region.start start && ltb start region.end)
    || (ltb region.start end && leb end region.end)
    || (leb start region.start && leb region.end end)
    || mm_conflicts rs start end

pub data Made : Type 0 where
  refused fault : Made
  made : ℕ → List Region → Made

-- `node` is what kmalloc() returns for the region.
pub mm_mk_region : (node : ℕ) → List Region → (start end flags : ℕ) → Made
mm_mk_region node regions start end flags =
    if mm_conflicts regions start end
    then refused
    else if node == 0
    then fault
    else made node (
        record { self = node; start = start; end = end; size = sub32 end start; flags = flags }
        ∷ regions)

pub mm_find_region : List Region → ℕ → Option Region
mm_find_region [] addr = none
mm_find_region (region ∷ rs) addr =
    let rest = mm_find_region rs addr in
    if leb region.start addr && ltb addr region.end then some region else rest

abbrev pub behind : Region → Option (List Region) → Option (List Region)
behind r none = none
behind r (some rs) = some (r ∷ rs)

-- The two writes that take `region` out of the list; `inner` when a node stands in front. `none` is
-- the NULL that the first or the last node has on one side.
pub unlink : (inner : Bool) → ℕ → List Region → Option (List Region)
unlink inner region [] = none
unlink inner region (r ∷ []) = none
unlink inner region (r ∷ s ∷ rs) =
    let rest = behind r (unlink true region (s ∷ rs)) in
    if r.self == region then (if inner then some (s ∷ rs) else none) else rest

-- What is left of the list when a change of it ends.
pub data Changed : Type 0 where
  fault : Changed
  panicked : List Region → Changed
  returned : ℤ → List Region → Changed

pub mm_del_region : List Region → ℕ → Changed
mm_del_region regions region = elim (unlink false region regions) [
  | none ↦ Changed.fault
  | some rs ↦ panicked rs
]

pub mm_mod_region : List Region → ℕ → (new_start new_end new_flags : ℕ) → Changed
mm_mod_region regions region new_start new_end new_flags = elim (unlink false region regions) [
  | none ↦ Changed.fault
  | some rs ↦
      if mm_conflicts rs new_start new_end
      then returned (neg econflict) rs
      else panicked (
          record {
            self = region;
            start = new_start;
            end = new_end;
            size = sub32 new_end new_start;
            flags = new_flags;
          }
          ∷ rs)
]
