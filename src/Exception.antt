-- ===== src/Exception.antt =====
-- kernel/exception.c, arch/i686/exception.c: the handler of the processor's exceptions. What is printed is a list of
-- calls of kprintf(), with the strings at the addresses `text`; those of heap_dump() are `dump`.
pub mod Reports
use Prim.Native.String.{String}
use ulmix_i.Base.{
  ℕ, Bool, Option, none, some, List, [], ◌∷◌, ◌++◌, ◌==◌, if◌then◌else◌, get_elem?, replicate,
}
use ulmix_i.Base.Bits.{has_bit}
use ulmix_i.Base.Text.{codes}

abbrev pub exc_protection : ℕ
exc_protection = 13

abbrev pub exc_pagefault : ℕ
exc_pagefault = 14

abbrev pub status_ok : ℕ
status_ok = 0

abbrev pub status_fatal : ℕ
status_fatal = 1

unfoldable pub exceptions : List String
exceptions =
    "divide by zero"
    ∷ "debug"
    ∷ "non-maskable interrupt"
    ∷ "breakpoint"
    ∷ "into detected overflow"
    ∷ "out of bounds"
    ∷ "invalid opcode"
    ∷ "no coprocessor"
    ∷ "double fault"
    ∷ "coprocessor segment overrun"
    ∷ "broken task state segment"
    ∷ "segment not present"
    ∷ "stack fault"
    ∷ "general protection fault"
    ∷ "page fault"
    ∷ "unknown interrupt"
    ∷ "coprocessor fault"
    ∷ "alignment check"
    ∷ "machine check"
    ∷ "SIMD"
    ∷ replicate 12 "reserved"

pub record ExcContext : Type 0 where
  pub id : ℕ
  pub edi : ℕ
  pub esi : ℕ
  pub ebp : ℕ
  pub esp : ℕ
  pub ebx : ℕ
  pub edx : ℕ
  pub ecx : ℕ
  pub eax : ℕ
  pub gs : ℕ
  pub fs : ℕ
  pub es : ℕ
  pub ds : ℕ
  pub error_code : ℕ
  pub eip : ℕ

-- A call of kprintf().
pub record Call : Type 0 where
  pub format : List ℕ
  pub args : List ℕ

pub page_fault : (text : String → ℕ) → (fault_addr err_code : ℕ) → ℕ × List Call
page_fault text fault_addr err_code = (
  status_fatal,
  record {
    format =
        codes
          "\n === PAGE FAULT INFO === \n   addr      = %p\n   cause     = %s\n   operation = %s\n   runlevel  = %s\n   op fetch  = %s\n\n";
    args =
        fault_addr
        ∷ text (if has_bit err_code 0 then "protection" else "non-present page")
        ∷ text (if has_bit err_code 1 then "write" else "read")
        ∷ text (if has_bit err_code 2 then "user" else "kernel")
        ∷ text (if has_bit err_code 4 then "yes" else "no")
        ∷ [];
  }
      ∷ [],
)

pub protection_fault : (text : String → ℕ) → (fault_addr err_code : ℕ) → ℕ × List Call
protection_fault text fault_addr err_code = (
  status_fatal,
  record {
    format =
        codes
          "\n === PROTECTION FAULT INFO === \n   addr             = %p\n   segment-related  = %s\n   if yes, selector = 0x%02x\n\n";
    args = fault_addr ∷ text (if err_code == 0 then "no" else "yes") ∷ err_code ∷ [];
  }
      ∷ [],
)

-- The status, and what is printed; `fault_addr` and `fault_code` are the globals.
pub generic_exception : (text : String → ℕ) → (fault_addr fault_code id : ℕ) → ℕ × List Call
unfolding page_fault protection_fault
generic_exception text fault_addr fault_code id =
    if id == exc_pagefault
    then page_fault text fault_addr fault_code
    else if id == exc_protection
    then protection_fault text fault_addr fault_code
    else (status_fatal, [])

-- The call of panic(), for the address of the exception's name.
abbrev pub panic_call : ExcContext → (name : ℕ) → Call
panic_call context name = record {
  format =
      codes
        "   unhandled %s exception (#%d)\n   eax=%p, ebx=%p, ecx=%p, edx=%p\n   esi=%p, edi=%p, ebp=%p, esp=%p\n   eip=%p\n\nexecution halted.";
  args =
      name ∷ context.id ∷ context.eax ∷ context.ebx ∷ context.ecx ∷ context.edx ∷ context.esi
      ∷ context.edi ∷ context.ebp ∷ context.esp ∷ context.eip ∷ [];
}

-- How the handler ends: it returns to the code that was interrupted; or the machine stops in panic(); or the name is
-- read behind the table.
pub data Handled : Type 0 where
  resumed halted : List Call → Handled
  wild_name : Handled

-- What exc_handler() does behind the assignments to the globals; `id` is that of the context.
pub handle_fault :
    (text : String → ℕ) → (dump : List Call) → ExcContext → (id fault_addr fault_code : ℕ) → Handled
unfolding generic_exception
handle_fault text dump context id fault_addr fault_code =
    let (status, printed) = generic_exception text fault_addr fault_code id in
    if status == status_ok then resumed printed else elim (get_elem? exceptions id) [
      | none ↦ wild_name
      | some name ↦ halted (printed ++ (dump ++ panic_call context (text name) ∷ []))
    ]

-- The globals fault_code and fault_addr, and the end.
pub record Fault : Type 0 where
  pub fault_code : ℕ
  pub fault_addr : ℕ
  pub handled : Handled

pub exc_handler : (text : String → ℕ) → (dump : List Call) → ExcContext → (cr2 : ℕ) → Fault
unfolding handle_fault
exc_handler text dump context cr2 =
    let fault_addr = if context.id == exc_pagefault then cr2 else context.eip in
    record {
      fault_code = context.error_code;
      fault_addr = fault_addr;
      handled = handle_fault text dump context context.id fault_addr context.error_code;
    }
