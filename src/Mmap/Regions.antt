-- ===== src/Mmap/Regions.antt =====
-- kernel/memory/mmap.c: regions of an address space do not overlap.
use ulmix_i.Base.{
  ℕ, ◌<◌, ◌≤◌, ◌≡◌, ◌≢◌, ◌⊎◌, inl, inr, refl, false, Option, none, some, List, [], ◌∷◌, arith, ◌==◌,
  Bool-cases,
}
use ulmix_i.Base.Bits.{sub32}
use ulmix_i.Mmap.{Region, mm_conflicts, Made, made, refused, mm_mk_region, mm_find_region}

abbrev pub Apart : ℕ → ℕ → Region → Type 0
Apart start end r = (end ≤ r.start) ⊎ (r.end ≤ start)

abbrev pub AllApart : ℕ → ℕ → List Region → Type 0
AllApart start end [] = Unit {0}
AllApart start end (r ∷ rs) = Apart start end r × AllApart start end rs

-- Every region has bytes, and no two share one.
abbrev pub IsDisjoint : List Region → Type 0
IsDisjoint [] = Unit {0}
IsDisjoint (r ∷ rs) = (r.start < r.end) × AllApart r.start r.end rs × IsDisjoint rs

-- For a range with bytes, mm_conflicts() answers 0 exactly if the range shares no byte with any of
-- the regions, which must have bytes themselves.
mm_conflicts-AllApart :
    (rs : List Region) (start end : ℕ)
    → start < end
    → IsDisjoint rs
    → (mm_conflicts rs start end ≡ false → AllApart start end rs)
      × (AllApart start end rs → mm_conflicts rs start end ≡ false)
unfolding mm_conflicts
mm_conflicts-AllApart [] start end lt d = ((λ _. tt), (λ _. refl))
mm_conflicts-AllApart (r ∷ rs) start end lt d = (
  (λ e. (ground arith, (mm_conflicts-AllApart rs start end lt d.2).0 (ground arith))),
  (λ a. ground (arith, (mm_conflicts-AllApart rs start end lt d.2).1 a.1)),
)

abbrev pub found : Made → ℕ → Option Region
found (made node rs) addr = mm_find_region rs addr
found _ addr = none

abbrev pub MadeDisjoint : List Region → ℕ → ℕ → Made → Type 0
MadeDisjoint rs start end (made node rs') =
    IsDisjoint rs'
    × AllApart start end rs
    × ((addr : ℕ)
        → (addr < start) ⊎ (end ≤ addr)
        → mm_find_region rs' addr ≡ mm_find_region rs addr)
    × ((addr : ℕ)
        → start ≤ addr
        → addr < end
        → (r : Region) × (mm_find_region rs' addr ≡ some r)
          × (r.start ≡ start)
          × (r.end ≡ end)
          × (r.self ≡ node))
MadeDisjoint rs start end refused = ¬ AllApart start end rs
MadeDisjoint rs start end Made.fault = ⊥

-- On an address space whose regions do not overlap, and where kmalloc() gives memory,
-- mm_mk_region() with a range that has bytes makes the region exactly if the range overlaps none of
-- them; then the regions do not overlap still, lookups inside the range find the new region, and
-- lookups elsewhere answer as before.
pub mm_mk_region-Disjoint :
    (node : ℕ) (rs : List Region) (start end flags : ℕ)
    → node ≢ 0
    → start < end
    → IsDisjoint rs
    → MadeDisjoint rs start end (mm_mk_region node rs start end flags)
unfolding mm_mk_region mm_find_region
mm_mk_region-Disjoint node rs start end flags some_node lt d =
    elim (Bool-cases (mm_conflicts rs start end)) [
      | inl c ↦ rw c (λ a. ground (arith, (mm_conflicts-AllApart rs start end lt d).1 a))
      | inr c ↦
          let e : (node == 0) ≡ false = ground arith in
          rw (c, e)
            (
              (lt, (mm_conflicts-AllApart rs start end lt d).0 c, d),
              (mm_conflicts-AllApart rs start end lt d).0 c,
              (λ addr o. ground arith),
              (λ addr lo hi. (
                record {
                  self = node;
                  start = start;
                  end = end;
                  size = sub32 end start;
                  flags = flags;
                },
                ground arith,
                refl,
                refl,
                refl,
              )),
            )
    ]
