-- ===== src/Vga/Screen.antt =====
-- drivers/vga.c: the cursor stays on the screen, and nothing but the video memory is written.
use mathlib.Core.Path.{subst}
use ulmix_i.Base.{
  ℕ, zero, suc, ◌+◌, ◌-◌, ◌*◌, ◌<◌, ◌≤◌, ◌≡◌, ◌≢◌, ◌∙◌, ◌⊎◌, refl, sym, inl, inr, true, false, List,
  [], ◌∷◌, arith, ◌==◌, if◌then◌else◌, Bool-cases, length,
}
use ulmix_i.Base.Memory.{Mem, write}
use ulmix_i.LibC.{memcpy}
use ulmix_i.LibC.Copies.{memcpy-within}
use ulmix_i.Vga.{
  video_base, lines, columns, Vga, clear_cells, text_clear, get_color, cell, backspace, scroll,
  newline, put_cell, put_default, text_putc, init_vga, put_all, vga_write,
}

-- The cursor is on the screen, or behind the last column.
abbrev pub OnScreen : Vga → Type 0
OnScreen s = (s.text_x ≤ columns) × (s.text_y < lines)

-- No byte outside the video memory differs.
abbrev pub Outside : ℕ → Type 0
Outside a = (a < video_base) ⊎ (video_base + columns * lines * 2 ≤ a)

abbrev pub Keeps : Vga → Vga → Type 0
Keeps s t = (a : ℕ) → Outside a → t.mem a ≡ s.mem a

abbrev pub Safe : Vga → Vga → Type 0
Safe s t = OnScreen t × Keeps s t

Safe-trans : (s t u : Vga) → Safe s t → Safe t u → Safe s u
Safe-trans s t u p q = (q.0, λ a out. q.1 a out ∙ p.1 a out)

clear_cells-other :
    (n color : ℕ) (m : Mem) (p a : ℕ) → (a < p) ⊎ (p + n * 2 ≤ a) → clear_cells n color m p a ≡ m a
unfolding clear_cells
clear_cells-other zero color m p a out = refl
clear_cells-other (suc n) color m p a (inl lt) =
    clear_cells-other n color (write (write m p 0) (p + 1) color) (p + 2) a (inl (omega arith))
    ∙ ground arith
clear_cells-other (suc n) color m p a (inr le) =
    clear_cells-other n color (write (write m p 0) (p + 1) color) (p + 2) a (inr (omega arith))
    ∙ ground arith

-- The lines that have moved up.
abbrev moved : Mem → Mem
moved m = memcpy m video_base (video_base + columns * 2) ((lines - 1) * columns * 2)

scroll-other : (color : ℕ) (m : Mem) (a : ℕ) → Outside a → scroll color m a ≡ m a
unfolding scroll
scroll-other color m a (inl lt) =
    clear_cells-other columns color (moved m) (video_base + (lines - 1) * columns * 2) a
      (inl (omega arith))
    ∙ memcpy-within ((lines - 1) * columns * 2) m video_base (video_base + columns * 2) a
        (inl (omega arith))
    ∙ ground arith
scroll-other color m a (inr le) =
    clear_cells-other columns color (moved m) (video_base + (lines - 1) * columns * 2) a
      (inr (omega arith))
    ∙ memcpy-within ((lines - 1) * columns * 2) m video_base (video_base + columns * 2) a
        (inl (omega arith))
    ∙ ground arith

newline-Safe : (s : Vga) → OnScreen s → Safe s (newline s)
unfolding newline
newline-Safe s on = elim (Bool-cases (s.text_y == lines - 1)) [
  | inl t ↦ rw t ((omega arith, on.1), λ a out. scroll-other s.current_color s.mem a out)
  | inr t ↦ rw t ((omega arith, ground (arith, on.1)), λ a out. refl)
]

newline-column : (s : Vga) → (newline s).text_x ≡ 0
unfolding newline
newline-column s = ground arith

put_cell-Safe : (c : ℕ) (s : Vga) → OnScreen s → s.text_x < columns → Safe s (put_cell c s)
unfolding put_cell cell
put_cell-Safe c s on lt = ((omega arith, on.1), other)
  where
    other : Keeps s (put_cell c s)
    other a (inl below) = ground (arith, on.1)
    other a (inr above) = ground (arith, on.1)

put_default-Safe : (c : ℕ) (s : Vga) → OnScreen s → Safe s (put_default c s)
unfolding put_default
put_default-Safe c s on = elim (Bool-cases (s.text_x == columns)) [
  | inl t ↦ rw t (
      Safe-trans s (newline s) (put_cell c (newline s)) (newline-Safe s on)
        (put_cell-Safe c (newline s) (newline-Safe s on).0 (omega (arith, newline-column s))))
  | inr t ↦ rw t (put_cell-Safe c s on (ground (arith, on.0)))
]

put_twice-Safe : (c : ℕ) (s : Vga) → OnScreen s → Safe s (put_default c (put_default c s))
put_twice-Safe c s on =
    Safe-trans s (put_default c s) (put_default c (put_default c s)) (put_default-Safe c s on)
      (put_default-Safe c (put_default c s) (put_default-Safe c s on).0)

text_putc-Safe : (c : ℕ) (s : Vga) → c ≢ 8 → OnScreen s → Safe s (text_putc c s)
unfolding text_putc
text_putc-Safe c s plain on = elim (Bool-cases (c == 8)) [
  | inl t ↦ absurd (plain (ground arith))
  | inr t ↦ rw t (printed c s on)
]
  where
    printed :
        (c : ℕ) (s : Vga)
        → OnScreen s
        → Safe s (
            if c == 10
            then newline s
            else if c == 13
            then record s { text_x = 0 }
            else if c == 9
            then put_default 0 (put_default 0 (put_default 0 (put_default 0 s)))
            else put_default c s)
    printed c s on = elim (Bool-cases (c == 10)) [
      | inl u ↦ rw u (newline-Safe s on)
      | inr u ↦ rw u (elim (Bool-cases (c == 13)) [
        | inl v ↦ rw v ((omega arith, on.1), λ a out. refl)
        | inr v ↦ rw v (elim (Bool-cases (c == 9)) [
          | inl w ↦ rw w (
              Safe-trans s (put_default 0 (put_default 0 s))
                (put_default 0 (put_default 0 (put_default 0 (put_default 0 s))))
                (put_twice-Safe 0 s on)
                (put_twice-Safe 0 (put_default 0 (put_default 0 s)) (put_twice-Safe 0 s on).0))
          | inr w ↦ rw w (put_default-Safe c s on)
        ])
      ])
    ]

-- No backspace in a text.
abbrev pub NoBackspace : List ℕ → Type 0
NoBackspace [] = Unit {0}
NoBackspace (c ∷ buf) = (c ≢ 8) × NoBackspace buf

put_all-Safe : (buf : List ℕ) (s : Vga) → NoBackspace buf → OnScreen s → Safe s (put_all buf s)
unfolding put_all
put_all-Safe [] s plain on = (on, λ a out. refl)
put_all-Safe (c ∷ buf) s plain on =
    Safe-trans s (text_putc c s) (put_all buf (text_putc c s)) (text_putc-Safe c s plain.0 on)
      (put_all-Safe buf (text_putc c s) plain.1 (text_putc-Safe c s plain.0 on).0)

init_vga-Safe : (s : Vga) → OnScreen s → Safe s (init_vga s)
unfolding init_vga text_clear
init_vga-Safe s on = elim (Bool-cases s.setup) [
  | inl t ↦ simp t (on, λ a out. refl)
  | inr t ↦ simp t ((omega arith, omega arith), λ a out. cleared a out)
]
  where
    cleared :
        (a : ℕ)
        → Outside a
        → clear_cells (columns * lines) (get_color 0xf 0x0) s.mem video_base a ≡ s.mem a
    cleared a (inl lt) = clear_cells-other (columns * lines) _ s.mem video_base a (inl lt)
    cleared a (inr le) =
        clear_cells-other (columns * lines) _ s.mem video_base a (inr (omega arith))

-- vga_write() of a text without backspaces writes no byte outside the video memory and leaves the cursor on
-- the screen or behind the last column of a line, whether or not the screen was set up before, and
-- returns the number of characters.
pub vga_write-Safe :
    (buf : List ℕ) (s : Vga)
    → NoBackspace buf
    → OnScreen s
    → Safe s (vga_write buf s).1 × ((vga_write buf s).0 ≡ length buf)
unfolding vga_write
vga_write-Safe buf s plain on = (go (Bool-cases s.setup), refl)
  where
    go :
        (s.setup ≡ true) ⊎ (s.setup ≡ false)
        → Safe s (put_all buf (if s.setup then s else init_vga s))
    go (inl t) =
        subst (λ b. Safe s (put_all buf (if b then s else init_vga s))) (sym t)
          (put_all-Safe buf s plain on)
    go (inr t) =
        subst (λ b. Safe s (put_all buf (if b then s else init_vga s))) (sym t)
          (Safe-trans s (init_vga s) (put_all buf (init_vga s)) (init_vga-Safe s on)
            (put_all-Safe buf (init_vga s) plain (init_vga-Safe s on).0))

text_putc-put_cell : (c : ℕ) (s : Vga) → 13 < c → s.text_x < columns → text_putc c s ≡ put_cell c s
unfolding text_putc put_default
text_putc-put_cell c s big lt = rw (
  plain 8 c (omega arith),
  plain 10 c (omega arith),
  plain 13 c (omega arith),
  plain 9 c (omega arith),
  inside,
)
  where
    plain : (k c : ℕ) → k < c → (c == k) ≡ false
    plain k c lt = ground arith

    inside : (s.text_x == columns) ≡ false
    inside = ground arith

backspace-put_cell :
    (c : ℕ) (s : Vga)
    → OnScreen s
    → s.text_x < columns
    → ((text_putc 8 (put_cell c s)).mem (cell s) ≡ c)
      × ((text_putc 8 (put_cell c s)).mem (cell s + 2) ≡ 0)
      × ((text_putc 8 (put_cell c s)).text_x ≡ s.text_x)
unfolding text_putc backspace put_cell cell
backspace-put_cell c s on lt = (ground (arith, on.1), ground (arith, on.1), ground (arith, on.1))

-- A backspace behind a character moves the cursor back to its place and leaves the character on the
-- screen; what it clears is the place behind.
text_putc_backspace :
    (c : ℕ) (s : Vga)
    → 13 < c
    → OnScreen s
    → s.text_x < columns
    → ((text_putc 8 (text_putc c s)).mem (cell s) ≡ c)
      × ((text_putc 8 (text_putc c s)).mem (cell s + 2) ≡ 0)
      × ((text_putc 8 (text_putc c s)).text_x ≡ s.text_x)
text_putc_backspace c s big on lt =
    rw (text_putc-put_cell c s big lt) (backspace-put_cell c s on lt)
