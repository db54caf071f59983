-- ===== src/Vga/Tests.antt =====
-- drivers/vga.c on a screen with the cursor at the end of the last line.
use ulmix_i.Base.{ℕ, ◌≡◌, true, List, [], ◌∷◌, arith}
use ulmix_i.Vga.{Vga, vga_write}
use ulmix_i.Vga.Screen.{Safe, vga_write-Safe}

abbrev at_end : Vga
at_end = record { mem = λ a. 7; current_color = 3; text_x = 79; text_y = 24; setup = true }

abbrev hi : List ℕ
hi = b'h' ∷ b'i' ∷ 9 ∷ 10 ∷ []

vga_write-Safe_example : Safe at_end (vga_write hi at_end).1 × ((vga_write hi at_end).0 ≡ 4)
vga_write-Safe_example =
    vga_write-Safe hi at_end (λ e. cc, (λ e. cc, (λ e. cc, (λ e. cc, tt))))
      (omega arith, omega arith)
