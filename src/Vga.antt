-- ===== src/Vga.antt =====
-- drivers/vga.c: the text screen and its cursor. The video memory is the memory from `video_base` on.
pub mod Screen
mod Tests
use Prim.Native.Nat.{bit_or}
use ulmix_i.Base.{
  ℕ, zero, suc, ◌+◌, ◌-◌, ◌*◌, ◌%◌, ◌^◌, Bool, true, false, List, [], ◌∷◌, ◌==◌, if◌then◌else◌,
  length,
}
use ulmix_i.Base.Bits.{u8, u32}
use ulmix_i.Base.Memory.{Mem, write}
use ulmix_i.LibC.{memcpy}

abbrev pub video_base : ℕ
video_base = 0xb8000

abbrev pub lines : ℕ
lines = 25

abbrev pub columns : ℕ
columns = 80

pub record Vga : Type 0 where
  pub mem : Mem
  pub current_color : ℕ
  pub text_x : ℕ
  pub text_y : ℕ
  pub setup : Bool

pub get_color : (text background : ℕ) → ℕ
get_color text background = u8 (bit_or text (background * 16))

-- `n` cells from `sc_ptr` on, with a NUL each.
pub clear_cells : ℕ → (color : ℕ) → Mem → (sc_ptr : ℕ) → Mem
clear_cells zero color m sc_ptr = m
clear_cells (suc n) color m sc_ptr =
    clear_cells n color (write (write m sc_ptr 0) (sc_ptr + 1) color) (sc_ptr + 2)

pub text_clear : Vga → Vga
unfolding clear_cells get_color
text_clear s = record s {
  text_x = 0;
  text_y = 0;
  mem = clear_cells (columns * lines) (get_color 0xf 0x0) s.mem video_base;
}

-- `mptr` at the start of text_putc(), with pointers of 32 bits.
pub cell : Vga → ℕ
cell s = u32 (video_base + (s.text_y * columns + s.text_x) * 2)

pub backspace : Vga → Vga
unfolding cell
backspace s = record s {
  mem = write (write s.mem (cell s) 0) (u32 (cell s + 2 ^ 32 - 1)) s.current_color;
  text_x = u32 (s.text_x + 2 ^ 32 - 1);
}

-- The last line, after the others have moved up.
pub scroll : (color : ℕ) → Mem → Mem
unfolding clear_cells
scroll color m =
    clear_cells columns color
      (memcpy m video_base (video_base + columns * 2) ((lines - 1) * columns * 2))
      (video_base + (lines - 1) * columns * 2)

pub newline : Vga → Vga
unfolding scroll
newline s =
    if s.text_y == lines - 1
    then record s { text_x = 0; mem = scroll s.current_color s.mem }
    else record s { text_x = 0; text_y = u32 (s.text_y + 1) }

pub put_cell : (c : ℕ) → Vga → Vga
unfolding cell
put_cell c s = record s {
  mem = write (write s.mem (cell s) c) (u32 (cell s + 1)) s.current_color;
  text_x = u32 (s.text_x + 1);
}

-- The default case. After text_putc('\n') text_x is 0, so the second call writes its cell.
pub put_default : (c : ℕ) → Vga → Vga
unfolding newline put_cell
put_default c s = if s.text_x == columns then put_cell c (newline s) else put_cell c s

pub text_putc : (c : ℕ) → Vga → Vga
unfolding backspace newline put_default
text_putc c s =
    if c == 8
    then backspace s
    else if c == 10
    then newline s
    else if c == 13
    then record s { text_x = 0 }
    else if c == 9
    then put_default 0 (put_default 0 (put_default 0 (put_default 0 s)))
    else put_default c s

pub init_vga : Vga → Vga
unfolding text_clear get_color
init_vga s =
    if s.setup then s else record (text_clear s) { setup = true; current_color = get_color 0x3 0x0 }

pub put_all : List ℕ → Vga → Vga
unfolding text_putc
put_all [] s = s
put_all (c ∷ buf) s = put_all buf (text_putc c s)

pub vga_write : List ℕ → Vga → ℕ × Vga
unfolding init_vga put_all
vga_write buf s = (length buf, put_all buf (if s.setup then s else init_vga s))
