-- ===== src/Sysinfo/Tests.antt =====
-- kernel/sysinfo.c: a run of cpu_supports().
use ulmix_i.Base.{◌≡◌, refl, false, some, none}
use ulmix_i.Sysinfo.{cpu_supports}

-- The first answer is kept.
supports_twice :
    (cpu_supports none 6
      (cpu_supports
        (some (0, 64))
        32
        (record { flags_loaded = false; ft_flags_edx = 0; ft_flags_ecx = 0 })).1).0
    ≡ 64
unfolding cpu_supports
supports_twice = refl
