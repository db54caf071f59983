-- ===== src/Exception/Reports.antt =====
-- kernel/exception.c, arch/i686/exception.c: what the handler reports.
use Prim.Native.String.{String}
use ulmix_i.Base.{
  ℕ, ◌+◌, ◌*◌, ◌<◌, ◌≡◌, ◌∙◌, refl, ap, Bool, true, false, some, List, [], ◌∷◌, ◌++◌, arith, ◌==◌,
  if◌then◌else◌, get_elem?, get_elem?-within, length,
}
use ulmix_i.Base.Bits.{has_bit}
use ulmix_i.Base.Text.{codes}
use ulmix_i.Exception.{
  exceptions, ExcContext, Call, page_fault, protection_fault, generic_exception, panic_call, halted,
  handle_fault, exc_pagefault, exc_protection, status_fatal,
}

-- A digit of the error code.
abbrev pub bit : Bool → ℕ
bit true = 1
bit false = 0

-- The processor's error code of a page fault: whether the page was present, a write, from the user's
-- level, with a reserved bit set, a fetch of an instruction.
abbrev pub error_code_of : (present write user reserved fetch : Bool) → ℕ
error_code_of present write user reserved fetch =
    bit present + 2 * bit write + 4 * bit user + 8 * bit reserved + 16 * bit fetch

bit_le : (b : Bool) → bit b < 2
bit_le true = omega arith
bit_le false = omega arith

bit-is_one : (b : Bool) (n : ℕ) → n ≡ bit b → (n == 1) ≡ b
bit-is_one true n e = ground (arith, e)
bit-is_one false n e = ground (arith, e)

module _ (present write user reserved fetch : Bool) where
  abbrev code : ℕ
  code = error_code_of present write user reserved fetch

  present_bit : has_bit code 0 ≡ present
  present_bit = bit-is_one present _ (omega (arith, bit_le present))

  write_bit : has_bit code 1 ≡ write
  write_bit = bit-is_one write _ (omega (arith, bit_le present, bit_le write))

  user_bit : has_bit code 2 ≡ user
  user_bit = bit-is_one user _ (omega (arith, bit_le present, bit_le write, bit_le user))

  fetch_bit : has_bit code 4 ≡ fetch
  fetch_bit =
      bit-is_one fetch _
        (omega (arith, bit_le present, bit_le write, bit_le user, bit_le reserved, bit_le fetch))

-- The report of a page fault.
abbrev pub page_fault_call :
    (text : String → ℕ) → (fault_addr : ℕ) → (present write user fetch : Bool) → Call
page_fault_call text fault_addr present write user fetch = record {
  format =
      codes
        "\n === PAGE FAULT INFO === \n   addr      = %p\n   cause     = %s\n   operation = %s\n   runlevel  = %s\n   op fetch  = %s\n\n";
  args =
      fault_addr
      ∷ text (if present then "protection" else "non-present page")
      ∷ text (if write then "write" else "read")
      ∷ text (if user then "user" else "kernel")
      ∷ text (if fetch then "yes" else "no")
      ∷ [];
}

page_fault-call :
    (text : String → ℕ) (fault_addr : ℕ) (present write user reserved fetch : Bool)
    → page_fault text fault_addr (error_code_of present write user reserved fetch)
      ≡ (status_fatal, page_fault_call text fault_addr present write user fetch ∷ [])
unfolding page_fault
page_fault-call text fault_addr present write user reserved fetch =
    said (λ b. page_fault_call text fault_addr b (has_bit e 1) (has_bit e 2) (has_bit e 4))
      (present_bit present write user reserved fetch)
    ∙ said (λ b. page_fault_call text fault_addr present b (has_bit e 2) (has_bit e 4))
        (write_bit present write user reserved fetch)
    ∙ said (λ b. page_fault_call text fault_addr present write b (has_bit e 4))
        (user_bit present write user reserved fetch)
    ∙ said (λ b. page_fault_call text fault_addr present write user b)
        (fetch_bit present write user reserved fetch)
  where
    e : ℕ
    e = error_code_of present write user reserved fetch

    said :
        (f : Bool → Call) {b c : Bool}
        → b ≡ c
        → Path (ℕ × List Call) (status_fatal, f b ∷ []) (status_fatal, f c ∷ [])
    said f q = ap (λ b. (status_fatal, f b ∷ [])) q

fatal_if :
    (b : Bool) (p q : ℕ × List Call)
    → p.0 ≡ status_fatal
    → q.0 ≡ status_fatal
    → (if b then p else q).0 ≡ status_fatal
fatal_if true p q h k = h
fatal_if false p q h k = k

generic_exception_fatal :
    (text : String → ℕ) (fault_addr fault_code id : ℕ)
    → (generic_exception text fault_addr fault_code id).0 ≡ status_fatal
unfolding generic_exception page_fault protection_fault
generic_exception_fatal text fault_addr fault_code id =
    fatal_if (id == exc_pagefault) _ _ refl (fatal_if (id == exc_protection) _ _ refl refl)

length-exceptions : length exceptions ≡ 32
unfolding exceptions
length-exceptions = refl

-- No exception is handled: for every number that the table has, the machine stops in panic(), with the name of the
-- exception and the registers, behind what is said of the fault and of the heap.
handle_fault-halted :
    (text : String → ℕ) (dump : List Call) (context : ExcContext) (id fault_addr fault_code : ℕ)
    → id < 32
    → (name : String) × (get_elem? exceptions id ≡ some name)
      × (handle_fault text dump context id fault_addr fault_code
          ≡ halted (
              (generic_exception text fault_addr fault_code id).1
              ++ (dump ++ panic_call context (text name) ∷ [])))
unfolding handle_fault
handle_fault-halted text dump context id fault_addr fault_code lt =
    go (get_elem?-within exceptions id (omega (arith, length-exceptions)))
  where
    go :
        (name : String) × (get_elem? exceptions id ≡ some name)
        → (name : String) × (get_elem? exceptions id ≡ some name)
          × (handle_fault text dump context id fault_addr fault_code
              ≡ halted (
                  (generic_exception text fault_addr fault_code id).1
                  ++ (dump ++ panic_call context (text name) ∷ [])))
    go (name, e) =
        (name, e, rw (generic_exception_fatal text fault_addr fault_code id, e, handle_fault) refl)
