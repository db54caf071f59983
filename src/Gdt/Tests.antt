-- ===== src/Gdt/Tests.antt =====
-- arch/i686/gdt.c: the theorems at concrete descriptors.
use ulmix_i.Base.{◌≡◌, true, some, arith}
use ulmix_i.Gdt.{setup_entry, setup_gdt}
use ulmix_i.Gdt.Segments.{decode_at, setup_entry-decode}

setup_entry-decode_example :
    decode_at (setup_entry 5 0x123456 104 0xe9 0 (setup_gdt 0x200000).0) 5
    ≡ some (record {
      base = 0x123456;
      last = 104;
      present = true;
      level = 3;
      is_system = true;
      kind = 9;
    })
unfolding setup_gdt setup_entry
setup_entry-decode_example =
    setup_entry-decode 5 0x123456 104 0xe9 0 (setup_gdt 0x200000).0 (omega arith) (omega arith)
      (omega arith) (omega arith)
