-- ===== src/Kprintf/Tests.antt =====
-- kernel/kprintf.c on concrete formats.
use ulmix_i.Base.{◌≡◌, refl, true, false, List, [], ◌∷◌, arith}
use ulmix_i.Base.Memory.{Mem}
use ulmix_i.LibC.{
  atoi, atoi_loop, strlen, strlen_loop, itoa, utoa, xtoa, digit_loop, pad_loop, hex_loop, nchar,
  reverse, swap_loop,
}
use ulmix_i.Kprintf.{kputs, digits, get_flags, printed, put_number, put_padded, convert, do_kprintf}
use ulmix_i.Kprintf.Formats.{
  Piece, text, conversion, decimal, hex, encode_all, ArePieces, print_all, do_kprintf-print_all,
}

abbrev zeros : Mem
zeros a = 0

-- "n=%d %04lx"
abbrev pieces : List Piece
pieces =
    text b'n'
    ∷ text b'='
    ∷ conversion [] false decimal
    ∷ text b' '
    ∷ conversion (b'0' ∷ b'4' ∷ []) true hex
    ∷ []

pieces-ArePieces : ArePieces pieces
pieces-ArePieces = (
  omega arith,
  (
    omega arith,
    ((tt, tt), (omega arith, (((refl, ((omega arith, omega arith), tt), omega arith), tt), tt))),
  ),
)

prints :
    do_kprintf 20 20 zeros zeros (42 ∷ 255 ∷ []) (encode_all pieces)
    ≡ printed (b'n' ∷ b'=' ∷ b'4' ∷ b'2' ∷ b' ' ∷ b'0' ∷ b'0' ∷ b'f' ∷ b'f' ∷ []) []
unfolding do_kprintf get_flags digits convert kputs put_number put_padded atoi atoi_loop strlen
    strlen_loop itoa utoa xtoa digit_loop pad_loop hex_loop nchar reverse swap_loop
prints = refl

-- The sign of -42 is lost.
drops_sign :
    do_kprintf 20 20 zeros zeros (0xffffffd6 ∷ []) (b'%' ∷ b'd' ∷ [])
    ≡ printed (b'4' ∷ b'2' ∷ []) []
unfolding do_kprintf get_flags digits convert kputs put_number put_padded atoi atoi_loop strlen
    strlen_loop itoa utoa digit_loop pad_loop nchar reverse swap_loop
drops_sign = refl

do_kprintf-print_all_example :
    do_kprintf 12 20 zeros zeros (42 ∷ 255 ∷ []) (encode_all pieces)
    ≡ print_all 20 zeros zeros (42 ∷ 255 ∷ []) pieces
do_kprintf-print_all_example =
    do_kprintf-print_all pieces 12 20 zeros zeros (42 ∷ 255 ∷ []) pieces-ArePieces (omega arith)
