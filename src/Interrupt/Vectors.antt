-- ===== src/Interrupt/Vectors.antt =====
-- arch/i686/idt.c, kernel/interrupt.c: where each vector leads after setup_idt(), and the handlers.
use ulmix_i.Base.{
  ℕ, zero, suc, ◌+◌, ◌-◌, ◌*◌, ◌^◌, ◌<◌, ◌≡◌, ◌≢◌, none, some, ◌∙◌, refl, ap, ◌&&◌, arith, ltb, leb,
  ◌==◌, if◌then◌else◌,
}
use ulmix_i.Base.Bits.{u32}
use ulmix_i.Base.Int.{negsuc}
use ulmix_i.Interrupt.{
  Handlers, register_irq, unregister_irq, irq_handler, IdtEntry, Idt, set_idt_entry, set_entries,
  setup_idt, supervisor_gate, user_gate,
}

-- The address in a descriptor.
abbrev pub handler_of : IdtEntry → ℕ
handler_of e = e.offset_high * 2 ^ 16 + e.offset_low

-- The `k`-th of the entries from `ptr` on.
abbrev pub nth_entry : (k ptr len : ℕ) → ℕ
nth_entry zero ptr len = ptr
nth_entry (suc k) ptr len = nth_entry k (u32 (ptr + len)) len

pub nth_same : (a b ptr len : ℕ) → a ≡ b → nth_entry a ptr len ≡ nth_entry b ptr len
nth_same a b ptr len e = ap (λ k. nth_entry k ptr len) e

set_idt_entry-handler :
    (id handler flags i : ℕ) (idt : Idt)
    → handler < 2 ^ 32
    → handler_of (set_idt_entry id handler flags idt i)
      ≡ (if id == i then handler else handler_of (idt i))
unfolding set_idt_entry
set_idt_entry-handler id handler flags i idt small = ground arith

set_entries-handler :
    (n id ptr len flags i : ℕ) (idt : Idt)
    → ptr < 2 ^ 32
    → handler_of (set_entries n id ptr len flags idt i)
      ≡ (if leb id i && ltb i (id + n) then nth_entry (i - id) ptr len else handler_of (idt i))
unfolding set_entries
set_entries-handler zero id ptr len flags i idt small = ground arith
set_entries-handler (suc n) id ptr len flags i idt small =
    set_entries-handler n (id + 1) (u32 (ptr + len)) len flags i (set_idt_entry id ptr flags idt)
      (omega arith)
    ∙ step
  where
    next : id < i → nth_entry (i - id) ptr len ≡ nth_entry (i - (id + 1)) (u32 (ptr + len)) len
    next lt = nth_same (i - id) (suc (i - (id + 1))) ptr len (omega arith)

    here : id ≡ i → nth_entry (i - id) ptr len ≡ ptr
    here e = nth_same (i - id) 0 ptr len (omega arith)

    step :
        (if leb (id + 1) i && ltb i (id + 1 + n)
          then nth_entry (i - (id + 1)) (u32 (ptr + len)) len
          else handler_of (set_idt_entry id ptr flags idt i))
        ≡ (if leb id i && ltb i (id + suc n)
            then nth_entry (i - id) ptr len
            else handler_of (idt i))
    step = ground (arith, next, here, set_idt_entry-handler id ptr flags i idt small)

-- Where vector `id` is to lead: the exceptions, the interrupts of the two controllers, the system call.
abbrev pub target : (exc0 exc_len irq0 irq_len syscall_handler id : ℕ) → ℕ
target exc0 exc_len irq0 irq_len syscall_handler id =
    if id == 0x80
    then syscall_handler
    else if ltb id 32
    then nth_entry id exc0 exc_len
    else if ltb id 48
    then nth_entry (id - 32) irq0 irq_len
    else 0

nth_null : (k : ℕ) → nth_entry k 0 0 ≡ 0
nth_null zero = refl
nth_null (suc k) = nth_null k

-- The order in which setup_idt() fills the table, and the one by vector.
in_order :
    (a b c c' d sys id : ℕ)
    → a ≡ 0
    → c ≡ c'
    → id < 256
    → (if 0x80 == id
        then sys
        else if leb 48 id && ltb id (48 + (256 - 48))
        then a
        else if leb 32 id && ltb id (32 + 16)
        then b
        else if leb 0 id && ltb id (0 + 32)
        then c
        else d)
      ≡ (if id == 0x80 then sys else if ltb id 32 then c' else if ltb id 48 then b else 0)
in_order a b c c' d sys id null same lt = ground (arith, null, same)

-- After setup_idt(), the descriptor of each of the 256 vectors holds the address of its entry: the 32
-- exceptions and the 16 interrupts lead to their entries one after the other, 0x80 leads to the system call,
-- and the others nowhere.
pub setup_idt-target :
    (exc0 exc_len irq0 irq_len syscall_handler id : ℕ) (idt : Idt)
    → exc0 < 2 ^ 32
    → irq0 < 2 ^ 32
    → syscall_handler < 2 ^ 32
    → id < 256
    → handler_of (setup_idt exc0 exc_len irq0 irq_len syscall_handler idt id)
      ≡ target exc0 exc_len irq0 irq_len syscall_handler id
unfolding setup_idt
setup_idt-target exc0 exc_len irq0 irq_len sys id idt e i s lt =
    set_idt_entry-handler 0x80 sys user_gate id others s
    ∙ ap (λ h. if 0x80 == id then sys else h)
        (set_entries-handler (256 - 48) 48 0 0 0 id irqs (omega arith)
          ∙ ap (λ h. if leb 48 id && ltb id (48 + (256 - 48)) then nth_entry (id - 48) 0 0 else h)
              (set_entries-handler 16 32 irq0 irq_len supervisor_gate id excs i
                ∙ ap
                    (λ h.
                      if leb 32 id && ltb id (32 + 16) then nth_entry (id - 32) irq0 irq_len else h)
                    (set_entries-handler 32 0 exc0 exc_len supervisor_gate id idt e)))
    ∙ in_order (nth_entry (id - 48) 0 0) (nth_entry (id - 32) irq0 irq_len)
        (nth_entry (id - 0) exc0 exc_len) (nth_entry id exc0 exc_len) (handler_of (idt id)) sys id
        (nth_null (id - 48)) (nth_same (id - 0) id exc0 exc_len (omega arith)) lt
  where
    excs : Idt
    excs = set_entries 32 0 exc0 exc_len supervisor_gate idt

    irqs : Idt
    irqs = set_entries 16 32 irq0 irq_len supervisor_gate excs

    others : Idt
    others = set_entries (256 - 48) 48 0 0 0 irqs

-- register_irq() of a free interrupt makes irq_handler() call the handler for this interrupt and changes
-- nothing for the others; a second register_irq() is refused, and unregister_irq() frees it again.
pub irq_handler-register_irq :
    (irq handler other : ℕ) (hs : Handlers)
    → hs irq ≡ 0
    → handler ≢ 0
    → irq ≢ other
    → (irq_handler irq (register_irq irq handler hs).1 ≡ some handler)
      × (irq_handler other (register_irq irq handler hs).1 ≡ irq_handler other hs)
      × ((register_irq irq other (register_irq irq handler hs).1).0 ≡ negsuc 0)
      × (irq_handler irq (unregister_irq irq (register_irq irq handler hs).1).1 ≡ none)
unfolding register_irq unregister_irq irq_handler
irq_handler-register_irq irq handler other hs new real ne =
    (ground arith, ground arith, ground arith, ground arith)
