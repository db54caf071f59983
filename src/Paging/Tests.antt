-- ===== src/Paging/Tests.antt =====
-- The theorems of arch/i686/mmhelper.c and paging.c for the kernel's identity mapping.
use ulmix_i.Base.{◌+◌, ◌*◌, false, ◌≡◌, refl, inl, none, some, arith}
use ulmix_i.Paging.{Tables, mm_map, mm_physical, at}
use ulmix_i.Paging.Mapping.{Linked, entry_of, mapped, mm_map-entry_of, mm_map_unaligned}
use ulmix_i.Paging.Setup.{Memory, Clean, in_force, setup_paging, setup_paging-identity}
use ulmix_i.Paging.Translate.{mm_physical-mm_map}
use ulmix_i.Sysinfo.{Sysinfo, cpu_supports}

abbrev no_tables : Tables
no_tables = record {
  overrun = false;
  page_tables = λ _. none;
  page_dir = λ _. 0;
  fresh = λ i. 0x10000 + i;
}

mm_map-entry_of_example :
    (entry_of (mm_map no_tables 0x2000 0x5000 0x1800 2) 3
      ≡ mapped 2 2 0x5000 2 3 (entry_of no_tables 3))
    × (Linked no_tables → Linked (mm_map no_tables 0x2000 0x5000 0x1800 2))
mm_map-entry_of_example =
    mm_map-entry_of no_tables 0x2000 0x5000 0x1800 2 3 refl refl (omega arith) (omega arith)

mm_map_unaligned_example : mm_map no_tables 0x2001 0x5000 0x1800 2 ≡ no_tables
mm_map_unaligned_example = mm_map_unaligned no_tables 0x2001 0x5000 0x1800 2 (inl (omega arith))

mm_physical-mm_map_example :
    mm_physical (some (mm_map no_tables 0x2000 0x5000 0x1800 2)) 0x3123 ≡ at 0x6123
mm_physical-mm_map_example =
    mm_physical-mm_map no_tables 0x2000 0x5000 0x1800 2 0x3123 refl refl (omega arith) (omega arith)
      (omega arith) (omega arith) (omega arith) (omega arith) (omega arith)

abbrev unknown : Sysinfo
unknown = record { flags_loaded = false; ft_flags_edx = 0; ft_flags_ecx = 0 }

abbrev first_memory : Memory
first_memory = record {
  page_dir0 = 0x300000;
  ptr_table = 0x301000;
  held = λ _. none;
  fresh = λ i. 0x302000 + 0x1000 * i;
}

memory-Clean : Clean first_memory
memory-Clean = (λ i. refl, λ i. omega arith, refl)

setup_paging-identity_example :
    in_force 0x123456 (setup_paging (some (0, 64)) unknown first_memory 0x180000 0x4000000 0x11 0).0
    ≡ some (at 0x123456, at 0x301000)
unfolding cpu_supports
setup_paging-identity_example =
    setup_paging-identity (some (0, 64)) unknown first_memory 0x180000 0x4000000 0x11 0 0x123456
      memory-Clean (omega arith)
