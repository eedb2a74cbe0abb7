-- ===== src/Fault.antt =====
-- src/arch/x86/FaultHandler.cpp and src/include/arch/x86/FaultHandler.hpp: the handlers of
-- processor exceptions, and `IRQHandler::Init` of src/arch/x86/IRQHandler.cpp, which sets its
-- gates in the same way. The entry stubs are assembly: `stub` gives their addresses. What the
-- handlers print is in the child modules.
pub mod Install
pub mod Flags
pub mod Report
mod Tests
use ann_os.Base.{
  ℕ, zero, suc, ◌+◌, ◌/◌, ◌%◌, ◌^◌, ◌==◌, Bool, true, false, if◌then◌else◌, Option, none, some,
  List, [], ◌∷◌, Outcome, ok, panic, ◌>>=◌,
}
use ann_os.Idt.{InterruptType, interrupt, trap, Descriptors, set_gate}

-- `enum FaultCode`
pub data FaultCode : Type 0 where
  divide_by_zero debug_trap nmi breakpoint overflow bound_range invalid_opcode device_not_available
        double_fault rsvd1 :
      FaultCode
  invalid_tss segment_not_present stack_segment_fault gpf page_fault rsvd2 fpe alignment_check
        machine_check simd_fpe :
      FaultCode

abbrev pub fault_code : FaultCode → ℕ
fault_code divide_by_zero = 0
fault_code debug_trap = 1
fault_code nmi = 2
fault_code breakpoint = 3
fault_code overflow = 4
fault_code bound_range = 5
fault_code invalid_opcode = 6
fault_code device_not_available = 7
fault_code double_fault = 8
fault_code rsvd1 = 9
fault_code invalid_tss = 10
fault_code segment_not_present = 11
fault_code stack_segment_fault = 12
fault_code gpf = 13
fault_code page_fault = 14
fault_code rsvd2 = 15
fault_code fpe = 16
fault_code alignment_check = 17
fault_code machine_check = 18
fault_code simd_fpe = 19

-- A gate to set: its code and its type. The stub has the number of the code.
abbrev pub Gate : Type 0
Gate = FaultCode × InterruptType

-- The calls of `Set` in `FaultHandler::Init`, in order: there is none for the reserved code 9.
abbrev pub fault_gates : List Gate
fault_gates =
    (divide_by_zero, interrupt)
    ∷ (debug_trap, interrupt)
    ∷ (nmi, interrupt)
    ∷ (breakpoint, trap)
    ∷ (overflow, trap)
    ∷ (bound_range, interrupt)
    ∷ (invalid_opcode, interrupt)
    ∷ (device_not_available, interrupt)
    ∷ (double_fault, interrupt)
    ∷ (invalid_tss, interrupt)
    ∷ (segment_not_present, interrupt)
    ∷ (stack_segment_fault, interrupt)
    ∷ (gpf, interrupt)
    ∷ (page_fault, interrupt)
    ∷ []

unfoldable pub install : (ℕ → ℕ) → List Gate → Descriptors → Outcome Descriptors
install stub [] desc = ok desc
install stub ((code, type) ∷ gates) desc = do
  desc' ← set_gate desc (fault_code code) (stub (fault_code code)) 0x08 type
  install stub gates desc'

-- `fhandlers`: the address of the handler of a code.
abbrev pub FaultHandlers : Type 0
FaultHandlers = ℕ → Option ℕ

abbrev pub set_fault_handler : FaultHandlers → ℕ → ℕ → FaultHandlers
set_fault_handler handlers faultno handler i = if i == faultno then some handler else handlers i

-- `FaultHandler::Init`, with the address of `fnPageFaultHandler`.
unfoldable pub fault_init :
    (ℕ → ℕ) → ℕ → Descriptors × FaultHandlers → Outcome (Descriptors × FaultHandlers)
fault_init stub on_page_fault (desc, handlers) = do
  desc' ← install stub fault_gates desc
  ok (desc', set_fault_handler handlers (fault_code page_fault) on_page_fault)

-- What `FaultDispatcher` does: `call` is what a handler does and whether it solved the fault. An
-- unsolved fault halts the machine.
unfoldable pub fault_dispatcher {ℓ} :
    {S : Type ℓ} → (ℕ → S → Bool × S) → FaultHandlers → ℕ → S → Outcome S
fault_dispatcher call handlers int_no s = elim (handlers int_no) [
  | none ↦ panic "fatal exception"
  | some handler ↦
      let (solved, s') = call handler s in if solved then ok s' else panic "fatal exception"
]

-- The sixteen calls of `Set` in `IRQHandler::Init`, from line `irqno` on.
unfoldable pub irq_init : (ℕ → ℕ) → ℕ → ℕ → Descriptors → Outcome Descriptors
irq_init stub zero irqno desc = ok desc
irq_init stub (suc rounds) irqno desc = do
  desc' ← set_gate desc (0x20 + irqno) (stub irqno) 0x08 interrupt
  irq_init stub rounds (irqno + 1) desc'
