-- ===== src/Interrupt.antt =====
-- kernel/interrupt.c, arch/i686/idt.c: the table of handlers, and the descriptors that lead an interrupt to
-- its entry. The addresses of the entries are parameters.
pub mod Vectors
pub mod Pic
mod Tests
use Prim.Native.Nat.{bit_or}
use ulmix_i.Base.{
  ℕ, zero, suc, ◌+◌, ◌-◌, ◌*◌, ◌/◌, ◌%◌, ◌^◌, Bool, true, false, ◌&&◌, Option, none, some, List, [],
  ◌∷◌, ltb, leb, ◌==◌, if◌then◌else◌,
}
use ulmix_i.Base.Bits.{u8, u16, u32}
use ulmix_i.Base.Int.{ℤ, pos, negsuc}

-- `irq_handlers`, with 0 for NULL.
abbrev pub Handlers : Type 0
Handlers = ℕ → ℕ

pub register_irq : (irq handler : ℕ) → Handlers → ℤ × Handlers
register_irq irq handler irq_handlers =
    if irq_handlers irq == 0
    then (pos 0, λ i. if irq == i then handler else irq_handlers i)
    else (negsuc 0, irq_handlers)

pub unregister_irq : (irq : ℕ) → Handlers → ℤ × Handlers
unregister_irq irq irq_handlers =
    if irq_handlers irq == 0
    then (negsuc 0, irq_handlers)
    else (pos 0, λ i. if irq == i then 0 else irq_handlers i)

-- The handler that irq_handler() calls.
pub irq_handler : (irq : ℕ) → Handlers → Option ℕ
irq_handler irq irq_handlers = if irq_handlers irq == 0 then none else some (irq_handlers irq)

-- irq_handler_i686(): the call, and the writes to the ports that end the interrupt.
pub irq_handler_i686 : (irq : ℕ) → Handlers → Option ℕ × List (ℕ × ℕ)
unfolding irq_handler
irq_handler_i686 irq irq_handlers = (
  irq_handler irq irq_handlers,
  if leb 32 irq && ltb irq (32 + 16)
      then (if leb (32 + 8) irq then (0xa0, 0x20) ∷ (0x20, 0x20) ∷ [] else (0x20, 0x20) ∷ [])
      else [],
)

pub record IdtEntry : Type 0 where
  pub offset_low : ℕ
  pub selector : ℕ
  pub zero_byte : ℕ
  pub type : ℕ
  pub offset_high : ℕ

abbrev pub Idt : Type 0
Idt = ℕ → IdtEntry

pub set_idt_entry : (id handler flags : ℕ) → Idt → Idt
set_idt_entry id handler flags idt i =
    if id == i
    then record {
      offset_low = u16 handler;
      offset_high = handler / 2 ^ 16 % 2 ^ 16;
      zero_byte = 0;
      type = u8 flags;
      selector = 0x8;
    }
    else idt i

-- The loop of setup_exc() and of setup_irq(), with entries `len` bytes apart; and with 0 and 0, that of
-- setup_idt().
pub set_entries : ℕ → (id ptr len flags : ℕ) → Idt → Idt
unfolding set_idt_entry
set_entries zero id ptr len flags idt = idt
set_entries (suc n) id ptr len flags idt =
    set_entries n (id + 1) (u32 (ptr + len)) len flags (set_idt_entry id ptr flags idt)

abbrev pub supervisor_gate : ℕ
supervisor_gate = bit_or (bit_or 0x80 0x0e) 0x00

abbrev pub user_gate : ℕ
user_gate = bit_or (bit_or 0x0e 0x80) 0x60

-- The writes to the ports of the two interrupt controllers.
pub pic_init : List (ℕ × ℕ)
pic_init =
    (0x20, 0x11)
    ∷ (0xa0, 0x11)
    ∷ (0x21, 0x20)
    ∷ (0xa1, 0x28)
    ∷ (0x21, 0x04)
    ∷ (0xa1, 0x02)
    ∷ (0x21, 0x01)
    ∷ (0xa1, 0x01)
    ∷ (0x21, 0x00)
    ∷ (0xa1, 0x00)
    ∷ []

-- setup_idt(), without the instructions that apply the table.
pub setup_idt : (exc0 exc_len irq0 irq_len syscall_handler : ℕ) → Idt → Idt
unfolding set_entries
setup_idt exc0 exc_len irq0 irq_len syscall_handler idt =
    set_idt_entry 0x80 syscall_handler user_gate (
      set_entries (256 - 48) 48 0 0 0 (
        set_entries 16 32 irq0 irq_len supervisor_gate
          (set_entries 32 0 exc0 exc_len supervisor_gate idt)))
