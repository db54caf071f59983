-- ===== src/Serial/Tests.antt =====
-- arch/i686/debug.c on a port that is always ready.
use ulmix_i.Base.{ℕ, ◌≡◌, refl, false, some, List, [], ◌∷◌, ◌++◌}
use ulmix_i.Ata.{Ports, outs}
use ulmix_i.Serial.{port, serial_init, wait_empty, debug_putchar}

-- A port that keeps what is written.
abbrev logging : Ports (List (ℕ × ℕ))
logging = record {
  inb = λ w port. (0x20, w);
  outb = λ w port value. w ++ (port, value) ∷ [];
  insw = λ w port. (0, w);
}

sent_A : debug_putchar logging 1 false [] b'A' ≡ some (serial_init 3 ++ (port, b'A') ∷ [])
unfolding debug_putchar serial_init wait_empty outs
sent_A = refl
