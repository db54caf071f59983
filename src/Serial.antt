-- ===== src/Serial.antt =====
-- arch/i686/debug.c: the serial port to which kprintf() copies what it prints. The ports are a parameter.
mod Tests
use ulmix_i.Base.{
  ℕ, zero, suc, ◌+◌, ◌/◌, ◌%◌, ◌^◌, Bool, Option, none, some, List, [], ◌∷◌, ltb, ◌==◌,
  if◌then◌else◌,
}
use ulmix_i.Base.Bits.{u8, u16, has_bit}
use ulmix_i.Ata.{Ports, outs}

abbrev pub port : ℕ
port = 0x3f8

abbrev pub baud_38400 : ℕ
baud_38400 = 3

-- The writes of serial_init(), for a divisor up to 20 or a speed above.
unfoldable pub serial_init : (baud : ℕ) → List (ℕ × ℕ)
serial_init baud =
    let divisor = u16 (if ltb 20 baud then 115200 / baud else baud) in
    (port + 1, 0)
    ∷ (port + 3, 0x80)
    ∷ (port, u8 divisor)
    ∷ (port + 1, 0)
    ∷ (port + 3, 3)
    ∷ (port + 2, 0xc7)
    ∷ (port + 4, 0x0b)
    ∷ (port + 1, 1)
    ∷ []

-- The loop that waits until a byte can be sent.
unfoldable pub wait_empty : {W : Type 0} → Ports W → ℕ → W → Option W
wait_empty ports zero w = none
wait_empty ports (suc fuel) w =
    let (status, w') = ports.inb w (port + 5) in
    let again = wait_empty ports fuel w' in if has_bit status 5 then some w' else again

-- Nothing sets `serial_initialized`, which stays as it is.
unfoldable pub debug_putchar :
    {W : Type 0} → Ports W → ℕ → (serial_initialized : Bool) → W → (c : ℕ) → Option W
unfolding serial_init wait_empty
debug_putchar ports fuel serial_initialized w c =
    let w' = if serial_initialized then w else outs ports w (serial_init baud_38400) in
    elim (wait_empty ports fuel w') [ none ↦ none | some w'' ↦ some (ports.outb w'' port (u8 c)) ]
