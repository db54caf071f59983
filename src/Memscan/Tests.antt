-- ===== src/Memscan/Tests.antt =====
-- arch/i686/memory.c: the map of a machine with memory on both sides of 4 GB.
use ulmix_i.Base.{ℕ, ◌*◌, ◌^◌, refl, none, some, List, [], ◌∷◌, ◌++◌, arith, get_elem?}
use ulmix_i.Base.Memory.{Mem}
use ulmix_i.Memscan.{memscan}
use ulmix_i.Memscan.Regions.{Entry, Scanned, memscan-total}

-- 640 KB, from 3 GB to 5 GB, and 1 MB above 5 GB.
abbrev regions : List Entry
regions =
    record { entry_size = 20; base_addr = 0; size = 655360 }
    ∷ record { entry_size = 20; base_addr = 3 * 2 ^ 30; size = 2 ^ 31 }
    ∷ record { entry_size = 20; base_addr = 5 * 2 ^ 30; size = 2 ^ 20 }
    ∷ []

abbrev entry_bytes : (b0 b1 b2 b3 b4 s2 s3 : ℕ) → List ℕ
entry_bytes b0 b1 b2 b3 b4 s2 s3 =
    20 ∷ 0 ∷ 0 ∷ 0 ∷ b0 ∷ b1 ∷ b2 ∷ b3 ∷ b4 ∷ 0 ∷ 0 ∷ 0 ∷ 0 ∷ 0 ∷ s2 ∷ s3 ∷ 0 ∷ 0 ∷ 0 ∷ 0 ∷ 1 ∷ 0
    ∷ 0 ∷ 0 ∷ []

abbrev boot_map : List ℕ
boot_map =
    entry_bytes 0 0 0 0 0 10 0 ++ entry_bytes 0 0 0 0xc0 0 0 0x80 ++ entry_bytes 0 0 0 0x40 1 16 0

abbrev ram : Mem
ram a = elim (get_elem? boot_map a) [ none ↦ 0 | some c ↦ c ]

memscan-total_example : Scanned ram 0 0 regions (memscan 4 ram 0 72)
memscan-total_example =
    memscan-total regions 4 ram 0
      (
        refl,
        refl,
        refl,
        omega arith,
        (refl, refl, refl, omega arith, (refl, refl, refl, omega arith, tt)),
      )
      (omega arith) (omega arith)
