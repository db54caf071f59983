-- ===== src/Sysinfo.antt =====
-- kernel/sysinfo.c: what the processor says of itself. The answer of the instruction CPUID, ECX and EDX, is a
-- parameter; `none` is its failure.
mod Tests
use Prim.Native.String.{String}
use ulmix_i.Base.{
  ℕ, ◌+◌, ◌-◌, List, [], ◌∷◌, ◌^◌, Bool, true, false, Option, none, some, ltb, if◌then◌else◌,
}
use ulmix_i.Base.Bits.{has_bit}

-- The static variables.
pub record Sysinfo : Type 0 where
  pub flags_loaded : Bool
  pub ft_flags_edx : ℕ
  pub ft_flags_ecx : ℕ

abbrev pub cpu_pae : ℕ
cpu_pae = 6

-- `flags & BIT(i)`, as a word of 32 bits.
abbrev pub flag : (flags i : ℕ) → ℕ
flag flags i = if has_bit flags i then 2 ^ i else 0

pub load_flags : (cpuid : Option (ℕ × ℕ)) → Sysinfo → Option Sysinfo
load_flags cpuid s = if s.flags_loaded then some s else elim cpuid [
  | none ↦ none
  | some (ecx, edx) ↦ some (record { flags_loaded = true; ft_flags_edx = edx; ft_flags_ecx = ecx })
]

unfoldable pub cpu_supports : (cpuid : Option (ℕ × ℕ)) → (feature : ℕ) → Sysinfo → ℕ × Sysinfo
unfolding load_flags
cpu_supports cpuid feature s = elim (load_flags cpuid s) [
  | none ↦ (0, s)
  | some s' ↦ (
    if ltb feature 32
        then flag s'.ft_flags_edx feature
        else if ltb feature 64
        then flag s'.ft_flags_ecx (feature - 32)
        else 0,
    s',
  )
]

cpu_flags : List String
cpu_flags =
    "fpu" ∷ "vme" ∷ "de" ∷ "pse" ∷ "tsc" ∷ "msr" ∷ "pae" ∷ "mce" ∷ "cx8" ∷ "apic" ∷ "*" ∷ "sep"
    ∷ "mtrr" ∷ "pge" ∷ "mca" ∷ "cmov" ∷ "pat" ∷ "pse36" ∷ "psn" ∷ "clf" ∷ "*" ∷ "dtes" ∷ "acpi"
    ∷ "mmx" ∷ "fxsr" ∷ "sse" ∷ "sse2" ∷ "ss" ∷ "htt" ∷ "tm1" ∷ "ia64" ∷ "pbe" ∷ []

-- The names whose bits are set, from bit `i` on.
pub print_names : (flags i : ℕ) → List String → List String
print_names flags i [] = []
print_names flags i (name ∷ names) =
    let rest = print_names flags (i + 1) names in if has_bit flags i then name ∷ rest else rest

-- The names that print_cpu_flags() prints.
pub print_cpu_flags : (cpuid : Option (ℕ × ℕ)) → Sysinfo → List String × Sysinfo
unfolding cpu_flags print_names
print_cpu_flags cpuid s =
    let s' = (cpu_supports cpuid 0 s).1 in (print_names s'.ft_flags_edx 0 cpu_flags, s')
