-- ===== src/Memscan.antt =====
-- arch/i686/memory.c: memscan(), which adds up the memory that the boot loader found. Its map lies in memory; an
-- entry has a size of 4 bytes in front, the address and the size of the region in 8 bytes each, and a type.
pub mod Regions
mod Tests
use ulmix_i.Base.{
  ℕ, zero, suc, ◌+◌, ◌-◌, ◌*◌, ◌/◌, ◌%◌, ◌^◌, Bool, not, ◌&&◌, Option, none, some, ltb, leb, ◌==◌,
  if◌then◌else◌,
}
use ulmix_i.Base.Bits.{u32}
use ulmix_i.Base.Memory.{Mem}
use ulmix_i.Devices.{le32}

-- The last address below 4 GB.
abbrev pub gb4 : ℕ
gb4 = 0xffffffff

abbrev pub le64 : Mem → ℕ → ℕ
le64 m a = le32 m a + 2 ^ 32 * le32 m (a + 4)

-- A store of 8 bytes.
pub write64 : Mem → (a v : ℕ) → Mem
write64 m a v b = if leb a b && ltb b (a + 8) then v / 2 ^ (8 * (b - a)) % 2 ^ 8 else m b

-- Whether a region is cut at 4 GB; the sum has 64 bits.
pub reaches : (base_addr size : ℕ) → Bool
reaches base_addr size =
    leb base_addr gb4 && (not (size == 0) && leb gb4 ((base_addr + size) % 2 ^ 64))

-- The loop, with `entry` at the next entry; the sum has 32 bits.
pub memscan_loop : ℕ → Mem → (entry end physical_size : ℕ) → Option (ℕ × Mem)
unfolding write64 reaches
memscan_loop zero m entry end physical_size = none
memscan_loop (suc fuel) m entry end physical_size =
    let base_addr = le64 m (entry + 4) in
    let m' : Mem =
      if reaches base_addr (le64 m (entry + 12))
      then write64 m (entry + 12) (gb4 - base_addr)
      else m in
    let rest =
      memscan_loop fuel m' (u32 (entry + le32 m' entry + 4)) end
        (u32 (physical_size + le64 m' (entry + 12))) in
    if ltb entry end then rest else some (physical_size, m)

pub memscan : ℕ → Mem → (mmap mmap_length : ℕ) → Option (ℕ × Mem)
unfolding memscan_loop
memscan fuel m mmap mmap_length = memscan_loop fuel m mmap (u32 (mmap + mmap_length)) 0
