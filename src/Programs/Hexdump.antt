-- ===== src/Programs/Hexdump.antt =====
-- userspace/hexdump/hexdump.c.
pub mod Served
pub mod Dump
use ulmix_i.Base.{
  ℕ, zero, suc, ◌+◌, ◌&&◌, Bool, List, [], ◌∷◌, ltb, leb, ◌==◌, if◌then◌else◌, length,
}
use ulmix_i.Base.Bits.{u32, sub32}
use ulmix_i.Base.Int.{ℤ, pos, negsuc, is_negative}
use ulmix_i.Base.Memory.{Mem}
use ulmix_i.Programs.{
  Program, returns, unfinished, call, opens, reads, closes, num, printf, putchar, o_rdonly,
}

abbrev pub visible : ℕ → ℕ
visible c = if leb 32 c && ltb c 127 then c else b'.'

-- The characters from `i` on, then the bar.
pub print_chars : (n i : ℕ) → (buf : Mem) → Program ℤ → Program ℤ
print_chars zero i buf next = putchar b'|' (putchar 10 next)
print_chars (suc n) i buf next = putchar (visible (buf i)) (print_chars n (i + 1) buf next)

pub print_ascii : (buf : Mem) → (len : ℕ) → Program ℤ → Program ℤ
unfolding print_chars
print_ascii buf len next = putchar b' ' (putchar b'|' (print_chars len 0 buf next))

-- The bytes from `i` on.
pub print_bytes : (n i : ℕ) → (buf : Mem) → Program ℤ → Program ℤ
print_bytes zero i buf next = next
print_bytes (suc n) i buf next =
    let rest = print_bytes n (i + 1) buf next in
    printf "%02x " (num (buf i) ∷ []) (if i == 7 then putchar b' ' rest else rest)

-- `while (rem--)`.
pub pad : (rem : ℕ) → Program ℤ → Program ℤ
pad zero next = next
pad (suc rem) next = printf "   " [] (pad rem next)

-- A row of the dump, for a read() that has returned `len`.
pub print_row : (offset len : ℕ) → (buf : Mem) → Program ℤ → Program ℤ
unfolding print_bytes pad print_ascii
print_row offset len buf next =
    let ascii = print_ascii buf len next in
    printf "0x%08lx:  " (num offset ∷ [])
      (print_bytes len 0 buf (pad (sub32 16 len) (if ltb len 8 then putchar b' ' ascii else ascii)))

abbrev pub close_file : (fd : ℤ) → Program ℤ
close_file fd = call (closes fd) (λ a. returns (pos 0))

-- What the loop does with the result of read(); `more` is its next round.
pub dump_read : (fd : ℤ) → (offset : ℕ) → (len : ℤ) → (buf : Mem) → (more : Program ℤ) → Program ℤ
unfolding print_row
dump_read fd offset (negsuc n) buf more = close_file fd
dump_read fd offset (pos zero) buf more = close_file fd
dump_read fd offset (pos (suc n)) buf more =
    print_row offset (suc n) buf (if ltb (suc n) 16 then close_file fd else more)

pub dump_loop : (fuel : ℕ) → (fd : ℤ) → (offset : ℕ) → Program ℤ
unfolding dump_read
dump_loop zero fd offset = unfinished
dump_loop (suc fuel) fd offset =
    let more = dump_loop fuel fd (u32 (offset + 16)) in
    call (reads fd 16) (λ a. dump_read fd offset a.value a.buffer more)

unfoldable pub hexdump : (fuel : ℕ) → (argv : List (List ℕ)) → Program ℤ
unfolding dump_loop
hexdump fuel [] = printf "hexdump: error: too few arguments\n" [] (returns (pos 1))
hexdump fuel (name ∷ []) = printf "hexdump: error: too few arguments\n" [] (returns (pos 1))
hexdump fuel (name ∷ filename ∷ argv) = call (opens filename o_rdonly) (λ a.
    if is_negative a.value
    then printf "hexdump: errno %d: cannot open file\n" (num a.errno ∷ []) (returns (pos 1))
    else dump_loop fuel a.value 0)
