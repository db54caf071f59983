-- ===== src/Interrupt/Pic.antt =====
-- arch/i686/idt.c: pic_init(), and the way of an interrupt line to its entry. The two interrupt controllers are those
-- of the machine, two 8259A.
use ulmix_i.Base.{
  ◌≢◌, ◌≢◌, ◌%◌, leb, ℕ, ◌+◌, ◌-◌, ◌*◌, ◌/◌, ◌^◌, not, ◌&&◌, ◌||◌, Option, none, some, List, [],
  ◌∷◌, ltb, ◌==◌, if◌then◌else◌,
}
use ulmix_i.Base.Bits.{has_bit}
use ulmix_i.Interrupt.{IdtEntry}
use ulmix_i.Interrupt.Vectors.{nth_entry}

-- A controller: which of its initialisation words it waits for, with 0 for none; the first of them, the number of
-- its first vector, what is said of its companion, the mode, and the lines that are masked.
pub record Controller : Type 0 where
  pub waits_for : ℕ
  pub icw1 : ℕ
  pub base : ℕ
  pub companion : ℕ
  pub mode : ℕ
  pub mask : ℕ

-- A write to the first port: with bit 4 it begins the initialisation.
abbrev pub command : Controller → ℕ → Controller
command c value = if has_bit value 4 then record c { waits_for = 2; icw1 = value; mask = 0 } else c

abbrev pub fourth : (icw1 : ℕ) → ℕ
fourth icw1 = if has_bit icw1 0 then 4 else 0

-- A write to the second port: the word that is waited for, or else the mask.
abbrev pub data_word : Controller → ℕ → Controller
data_word c value =
    if c.waits_for == 2
    then record c {
      base = value / 8 * 8;
      waits_for = if has_bit c.icw1 1 then fourth c.icw1 else 3;
    }
    else if c.waits_for == 3
    then record c { companion = value; waits_for = fourth c.icw1 }
    else if c.waits_for == 4
    then record c { mode = value; waits_for = 0 }
    else record c { mask = value }

-- The first controller at the ports 0x20 and 0x21, the second at 0xa0 and 0xa1.
abbrev pub Controllers : Type 0
Controllers = Controller × Controller

abbrev pub outb : Controllers → (port value : ℕ) → Controllers
outb (first, second) port value =
    if port == 0x20
    then (command first value, second)
    else if port == 0x21
    then (data_word first value, second)
    else if port == 0xa0
    then (first, command second value)
    else if port == 0xa1
    then (first, data_word second value)
    else (first, second)

abbrev pub outb_all : Controllers → List (ℕ × ℕ) → Controllers
outb_all cs [] = cs
outb_all cs ((port, value) ∷ writes) = outb_all (outb cs port value) writes

-- The vector of an interrupt on one of the 16 lines; lines 8 to 15 are those of the second controller, which is on
-- line 2 of the first.
abbrev pub delivered : Controllers → (line : ℕ) → Option ℕ
delivered (first, second) line =
    if not (first.waits_for == 0) || not (second.waits_for == 0)
    then none
    else if ltb line 8
    then (if has_bit first.mask line then none else some (first.base + line))
    else if has_bit first.companion 2
        && second.companion == 2
        && not (has_bit first.mask 2)
        && not (has_bit second.mask (line - 8))
    then some (second.base + (line - 8))
    else none

-- The controllers behind pic_init().
abbrev first : Controller
first = record { waits_for = 0; icw1 = 0x11; base = 32; companion = 4; mode = 1; mask = 0 }

abbrev second : Controller
second = record { waits_for = 0; icw1 = 0x11; base = 40; companion = 2; mode = 1; mask = 0 }

-- The writes that end the interrupt of a line: to the first controller, and, for its lines, to the second.
abbrev pub acknowledged : (line : ℕ) → List (ℕ × ℕ)
acknowledged line = if ltb line 8 then (0x20, 0x20) ∷ [] else (0xa0, 0x20) ∷ (0x20, 0x20) ∷ []

-- Where the processor goes by a descriptor: it must be present, an interrupt gate of 32 bits, and in the kernel's
-- code segment, the first of setup_gdt().
abbrev pub gate_target : IdtEntry → Option ℕ
gate_target e =
    if has_bit e.type 7 && e.type % 2 ^ 5 == 0x0e && e.selector == 1 * 8 && e.zero_byte == 0
    then some (e.offset_high * 2 ^ 16 + e.offset_low)
    else none

abbrev gates : (n id ptr len i : ℕ) → Option ℕ → Option ℕ
gates n id ptr len i other =
    if leb id i && ltb i (id + n) then some (nth_entry (i - id) ptr len) else other
