-- ===== src/Interrupt/Tests.antt =====
-- arch/i686/idt.c with entries 16 bytes apart.
use ulmix_i.Interrupt.{Idt}
use ulmix_i.Interrupt.Pic.{Controller}

abbrev no_idt : Idt
no_idt i = record { offset_low = 0; selector = 0; zero_byte = 0; type = 0; offset_high = 0 }

abbrev no_controller : Controller
no_controller = record { waits_for = 3; icw1 = 0; base = 8; companion = 0; mode = 0; mask = 0xff }
