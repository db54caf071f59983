-- ===== src/Programs/Hexdump/Dump.antt =====
-- userspace/hexdump/hexdump.c: the rows of a dump.
use mathlib.Core.Path.{subst}
use ulmix_i.Base.{
  ℕ, zero, suc, ◌+◌, ◌*◌, ◌/◌, ◌^◌, ◌<◌, ◌≤◌, ◌≡◌, ◌∙◌, refl, sym, ap, Bool, true, false, some,
  List, [], ◌∷◌, ◌++◌, arith, ltb, ◌==◌, if◌then◌else◌, length, length-append,
}
use ulmix_i.Base.Bits.{u32, sub32}
use ulmix_i.Base.Int.{ℤ, pos, is_negative}
use ulmix_i.Base.Memory.{Mem, Holds}
use ulmix_i.Programs.{
  codes, num, Request, reads, writes, prints, opens, closes, Answer, Program, returns, call, Kernel,
  run, o_rdonly, printf, putchar,
}
use ulmix_i.Programs.Hexdump.Served.{
  numbers, address_format, byte_format, IsOutput, Serves, rows_at, run_call, Dumped, Dumped-call,
}
use ulmix_i.Programs.Hexdump.{
  visible, print_chars, print_ascii, print_bytes, pad, print_row, close_file, dump_read, dump_loop,
  hexdump,
}

module _ {W : Type 0} (kernel : Kernel W) (left : W → List ℕ) (filename : List ℕ) (fd : ℕ)
    (bs : List ℕ) (serves : Serves kernel left filename fd bs) where
  -- The program dumps so from any state in which `rest` is left.
  abbrev pub Dumps : Program ℤ → (rest offsets bytes : List ℕ) → Type 0
  Dumps program rest offsets bytes = (w : W) → left w ≡ rest → Dumped kernel program w offsets bytes

  Dumps-output :
      (r : Request) (next : Program ℤ) (rest offsets bytes : List ℕ)
      → IsOutput r
      → Dumps next rest offsets bytes
      → Dumps
          (call r (λ a. next))
          rest
          (numbers address_format r ++ offsets)
          (numbers byte_format r ++ bytes)
  Dumps-output r next rest offsets bytes out d w e = go (serves.output w r out)
    where
      go :
          (a : Answer) × (w' : W) × (kernel w r ≡ some (a, w')) × (left w' ≡ left w)
          → Dumped kernel
              (call r (λ a. next))
              w
              (numbers address_format r ++ offsets)
              (numbers byte_format r ++ bytes)
      go (a, w', answers, same) =
          Dumped-call kernel r (λ a. next) w w' a offsets bytes answers (d w' (same ∙ e))

  Dumps-putchar :
      (c : ℕ) (next : Program ℤ) (rest offsets bytes : List ℕ)
      → Dumps next rest offsets bytes
      → Dumps (putchar c next) rest offsets bytes
  Dumps-putchar c next rest offsets bytes d =
      Dumps-output (writes (c ∷ [])) next rest offsets bytes tt d

  print_chars-Dumps :
      (n i : ℕ) (buf : Mem) (next : Program ℤ) (rest offsets bytes : List ℕ)
      → Dumps next rest offsets bytes
      → Dumps (print_chars n i buf next) rest offsets bytes
  unfolding print_chars
  print_chars-Dumps zero i buf next rest offsets bytes d =
      Dumps-putchar b'|' _ rest offsets bytes (Dumps-putchar 10 next rest offsets bytes d)
  print_chars-Dumps (suc n) i buf next rest offsets bytes d =
      Dumps-putchar (visible (buf i)) _ rest offsets bytes
        (print_chars-Dumps n (i + 1) buf next rest offsets bytes d)

  print_ascii-Dumps :
      (buf : Mem) (len : ℕ) (next : Program ℤ) (rest offsets bytes : List ℕ)
      → Dumps next rest offsets bytes
      → Dumps (print_ascii buf len next) rest offsets bytes
  unfolding print_ascii
  print_ascii-Dumps buf len next rest offsets bytes d = Dumps-putchar b' ' _ rest offsets bytes (
      Dumps-putchar b'|' _ rest offsets bytes
        (print_chars-Dumps len 0 buf next rest offsets bytes d))

  pad-Dumps :
      (n : ℕ) (next : Program ℤ) (rest offsets bytes : List ℕ)
      → Dumps next rest offsets bytes
      → Dumps (pad n next) rest offsets bytes
  unfolding pad
  pad-Dumps zero next rest offsets bytes d = d
  pad-Dumps (suc n) next rest offsets bytes d =
      Dumps-output (prints (codes "   ") []) (pad n next) rest offsets bytes tt
        (pad-Dumps n next rest offsets bytes d)

  Dumps-spaced :
      (b : Bool) (next : Program ℤ) (rest offsets bytes : List ℕ)
      → Dumps next rest offsets bytes
      → Dumps (if b then putchar b' ' next else next) rest offsets bytes
  Dumps-spaced true next rest offsets bytes d = Dumps-putchar b' ' next rest offsets bytes d
  Dumps-spaced false next rest offsets bytes d = d

  print_bytes-Dumps :
      (chunk : List ℕ) (i : ℕ) (buf : Mem) (next : Program ℤ) (rest offsets bytes : List ℕ)
      → Holds buf i chunk
      → Dumps next rest offsets bytes
      → Dumps (print_bytes (length chunk) i buf next) rest offsets (chunk ++ bytes)
  unfolding print_bytes
  print_bytes-Dumps [] i buf next rest offsets bytes h d = d
  print_bytes-Dumps (c ∷ chunk) i buf next rest offsets bytes (h, hs) d =
      subst
        (λ c. Dumps (print_bytes (suc (length chunk)) i buf next) rest offsets (c ∷ chunk ++ bytes))
        h
        (Dumps-output (prints byte_format (num (buf i) ∷ [])) _ rest offsets (chunk ++ bytes) tt (
          Dumps-spaced (i == 7) _ rest offsets (chunk ++ bytes)
            (print_bytes-Dumps chunk (i + 1) buf next rest offsets bytes hs d)))

  print_row-Dumps :
      (offset : ℕ) (chunk : List ℕ) (buf : Mem) (next : Program ℤ) (rest offsets bytes : List ℕ)
      → Holds buf 0 chunk
      → Dumps next rest offsets bytes
      → Dumps (print_row offset (length chunk) buf next) rest (offset ∷ offsets) (chunk ++ bytes)
  unfolding print_row
  print_row-Dumps offset chunk buf next rest offsets bytes h d =
      Dumps-output (prints address_format (num offset ∷ [])) _ rest offsets (chunk ++ bytes) tt (
        print_bytes-Dumps chunk 0 buf _ rest offsets bytes h (
          pad-Dumps (sub32 16 (length chunk)) _ rest offsets bytes (
            Dumps-spaced (ltb (length chunk) 8) _ rest offsets bytes
              (print_ascii-Dumps buf (length chunk) next rest offsets bytes d))))

  close_file-Dumps : (rest : List ℕ) → Dumps (close_file (pos fd)) rest [] []
  unfolding run
  close_file-Dumps rest w e = go (serves.closing w)
    where
      go :
          (a : Answer) × (w' : W) × (kernel w (closes (pos fd)) ≡ some (a, w'))
          → Dumped kernel (close_file (pos fd)) w [] []
      go (a, w', answers) = (
        closes (pos fd) ∷ [],
        w',
        run_call kernel (closes (pos fd)) (λ a. returns (pos 0)) w w' a answers,
        refl,
        refl,
      )

  -- Behind a row: a short chunk is the last.
  behind_row-Dumps :
      (b : Bool) (offset : ℕ) (more : Program ℤ) (rest : List ℕ)
      → (b ≡ true → rest ≡ [])
      → (b ≡ false → Dumps more rest (rows_at offset ((length rest + 15) / 16)) rest)
      → Dumps
          (if b then close_file (pos fd) else more)
          rest
          (rows_at offset ((length rest + 15) / 16))
          rest
  behind_row-Dumps true offset more rest last d =
      subst (λ r. Dumps (close_file (pos fd)) r (rows_at offset ((length r + 15) / 16)) r)
        (sym (last refl)) (close_file-Dumps [])
  behind_row-Dumps false offset more rest last d = d refl

  -- What the loop does with a chunk that read() gave.
  dump_read-Dumps :
      (offset : ℕ) (chunk : List ℕ) (buf : Mem) (more : Program ℤ) (rest : List ℕ)
      → Holds buf 0 chunk
      → (length chunk < 16 → rest ≡ [])
      → (length chunk ≡ 16 → Dumps more rest (rows_at (offset + 16) ((length rest + 15) / 16)) rest)
      → length chunk ≤ 16
      → Dumps
          (dump_read (pos fd) offset (pos (length chunk)) buf more)
          rest
          (rows_at offset ((length chunk + length rest + 15) / 16))
          (chunk ++ rest)
  unfolding dump_read
  dump_read-Dumps offset [] buf more rest h last d short =
      subst (λ r. Dumps (close_file (pos fd)) r (rows_at offset ((0 + length r + 15) / 16)) r)
        (sym (last (omega arith))) (close_file-Dumps [])
  dump_read-Dumps offset (c ∷ cs) buf more rest h last d short =
      subst
        (λ n.
          Dumps
            (print_row offset (suc (length cs)) buf
              (if ltb (suc (length cs)) 16 then close_file (pos fd) else more))
            rest (rows_at offset n) (c ∷ cs ++ rest))
        {x = suc ((length rest + 15) / 16)} (one_more (length rest) (λ lt. ap length (last lt)))
        (print_row-Dumps offset (c ∷ cs) buf _ rest
          (rows_at (offset + 16) ((length rest + 15) / 16)) rest h
          (behind_row-Dumps (ltb (suc (length cs)) 16) (offset + 16) more rest
            (λ b. last (ground arith)) (λ b. d (ground arith))))
    where
      one_more :
          (n : ℕ)
          → (suc (length cs) < 16 → n ≡ 0)
          → suc ((n + 15) / 16) ≡ (suc (length cs) + n + 15) / 16
      one_more n none_left = grind arith

  dump_loop-Dumps :
      (fuel : ℕ) (offset : ℕ) (rest : List ℕ)
      → length rest < 16 * fuel
      → offset + length rest + 16 ≤ 2 ^ 32
      → Dumps (dump_loop fuel (pos fd) offset) rest (rows_at offset ((length rest + 15) / 16)) rest
  unfolding dump_loop
  dump_loop-Dumps zero offset rest enough small = absurd (omega arith)
  dump_loop-Dumps (suc fuel) offset rest enough small = λ w e.
      go w e (serves.reading w)
        (λ rest' shorter. dump_loop-Dumps fuel (offset + 16) rest' (omega arith) (omega arith))
    where
      go :
          (w : W)
          → left w ≡ rest
          → (a : Answer) × (w' : W) × (chunk : List ℕ) × (kernel w (reads (pos fd) 16)
              ≡ some (a, w'))
            × (a.value ≡ pos (length chunk))
            × Holds a.buffer 0 chunk
            × (left w ≡ chunk ++ left w')
            × (length chunk ≤ 16)
            × (length chunk < 16 → left w' ≡ [])
          → ((rest' : List ℕ)
              → length rest' + 16 ≡ length rest
              → Dumps
                  (dump_loop fuel (pos fd) (offset + 16))
                  rest'
                  (rows_at (offset + 16) ((length rest' + 15) / 16))
                  rest')
          → Dumped kernel
              (dump_loop (suc fuel) (pos fd) offset)
              w
              (rows_at offset ((length rest + 15) / 16))
              rest
      go w e (a, w', chunk, answers, len, h, split, short, last) later =
          subst (λ l. Dumped kernel loop w (rows_at offset ((length l + 15) / 16)) l) whole
            (subst (λ n. Dumped kernel loop w (rows_at offset ((n + 15) / 16)) (chunk ++ left w'))
              (sym (length-append chunk (left w')))
              (Dumped-call kernel (reads (pos fd) 16) _ w w' a _ _ answers (
                subst
                  (λ v.
                    Dumped kernel
                      (dump_read (pos fd) offset v a.buffer
                        (dump_loop fuel (pos fd) (u32 (offset + 16))))
                      w' (rows_at offset ((length chunk + length (left w') + 15) / 16))
                      (chunk ++ left w'))
                  (sym len)
                  (dump_read-Dumps offset chunk a.buffer _ (left w') h last full short w' refl))))
        where
          loop : Program ℤ
          loop = dump_loop (suc fuel) (pos fd) offset

          whole : chunk ++ left w' ≡ rest
          whole = sym split ∙ e

          full :
              length chunk ≡ 16
              → Dumps
                  (dump_loop fuel (pos fd) (u32 (offset + 16)))
                  (left w')
                  (rows_at (offset + 16) ((length (left w') + 15) / 16))
                  (left w')
          full all =
              subst
                (λ o.
                  Dumps (dump_loop fuel (pos fd) o) (left w')
                    (rows_at (offset + 16) ((length (left w') + 15) / 16)) (left w'))
                {x = offset + 16} (omega (arith, ap length whole, length-append chunk (left w')))
                (later (left w') (omega (arith, ap length whole, length-append chunk (left w'))))

  -- hexdump of a file on a kernel that serves it: the program returns 0, the numbers that it passes to printf()
  -- for %02x are the bytes of the file in order, and those that it passes for the rows are the addresses 0, 16, 32 and so
  -- on, one for each 16 bytes or less. The file has at most 2 ^ 32 - 16 bytes, and the loop a round for each 16 of
  -- them and one more.
  pub hexdump-Dumped :
      (fuel : ℕ) (name : List ℕ) (argv : List (List ℕ)) (w : W)
      → length bs < 16 * fuel
      → length bs + 16 ≤ 2 ^ 32
      → Dumped kernel
          (hexdump fuel (name ∷ filename ∷ argv))
          w
          (rows_at 0 ((length bs + 15) / 16))
          bs
  unfolding hexdump
  hexdump-Dumped fuel name argv w enough small = go (serves.opening w)
    where
      go :
          (a : Answer) × (w' : W) × (kernel w (opens filename o_rdonly) ≡ some (a, w'))
            × (a.value ≡ pos fd)
            × (left w' ≡ bs)
          → Dumped kernel
              (hexdump fuel (name ∷ filename ∷ argv))
              w
              (rows_at 0 ((length bs + 15) / 16))
              bs
      go (a, w', answers, handle, all) =
          Dumped-call kernel (opens filename o_rdonly) _ w w' a _ _ answers (
            subst
              (λ v.
                Dumped kernel
                  (if is_negative v
                    then printf "hexdump: errno %d: cannot open file\n" (num a.errno ∷ [])
                        (returns (pos 1))
                    else dump_loop fuel v 0)
                  w' (rows_at 0 ((length bs + 15) / 16)) bs)
              (sym handle) (dump_loop-Dumps fuel 0 bs enough (omega arith) w' all))
