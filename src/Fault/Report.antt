-- ===== src/Fault/Report.antt =====
-- What `FaultDispatcher` and the page fault handler of src/arch/x86/FaultHandler.cpp print and log
-- before they halt the machine: the calls of kprintf and of Log::Write, with their formats and
-- arguments.
pub mod Formats
use Prim.Native.String.{String}
use ann_os.Base.{
  ℕ, zero, suc, ◌<◌, ◌≡◌, refl, Bool, true, false, ◌&&◌, ◌||◌, not, ◌==◌, ltb, leb, if◌then◌else◌,
  Option, none, some, Option-cases, Bool-cases, inl, inr, List, [], ◌∷◌, ◌++◌, bit_and, arith,
  codes,
}
use ann_os.Libk.Format.{is_digit}
use ann_os.Fault.Flags.{flag_names, eflags_tests}

-- `struct FaultRegs`
pub record FaultRegs : Type 0 where
  pub gs : ℕ
  pub fs : ℕ
  pub es : ℕ
  pub ds : ℕ
  pub edi : ℕ
  pub esi : ℕ
  pub ebp : ℕ
  pub old_esp : ℕ
  pub ebx : ℕ
  pub edx : ℕ
  pub ecx : ℕ
  pub eax : ℕ
  pub int_no : ℕ
  pub error_code : ℕ
  pub eip : ℕ
  pub cs : ℕ
  pub eflags : ℕ
  pub esp : ℕ
  pub ss : ℕ

-- An argument: a number, or a pointer to a text.
pub data Arg : Type 0 where
  num_arg : ℕ → Arg
  text_arg : List ℕ → Arg

-- A call of kprintf, or one of Log::Write at level `Fatal` with an empty tag.
pub data Message : Type 0 where
  printed logged : String → List Arg → Message

-- `exceptionStr`, which has 20 entries.
abbrev pub exception_str : ℕ → Option String
exception_str n =
    if n == 0
    then some "Division by Zero"
    else if n == 1
    then some "Debug"
    else if n == 2
    then some "NMI"
    else if n == 3
    then some "Breakpoint"
    else if n == 4
    then some "Overflow"
    else if n == 5
    then some "Bound Range Exceeded"
    else if n == 6
    then some "Invalid Opcode"
    else if n == 7
    then some "Device Not Available"
    else if n == 8
    then some "Double Fault"
    else if n == 9
    then some ""
    else if n == 10
    then some "Invalid TSS"
    else if n == 11
    then some "Segment Not Present"
    else if n == 12
    then some "Stack Segment Fault"
    else if n == 13
    then some "General Protection Fault"
    else if n == 14
    then some "Page Fault"
    else if n == 15
    then some ""
    else if n == 16
    then some "Floating Point Error"
    else if n == 17
    then some "Alignment Check"
    else if n == 18
    then some "Machine Check"
    else if n == 19
    then some "SIMD Floating Point Error"
    else none

-- The three calls that print the registers.
unfoldable pub register_messages : FaultRegs → List Message
register_messages r =
    printed
      "\t\t \u{1b}[1meax:\u{1b}[0m %08x\t \u{1b}[1mebx:\u{1b}[0m %08x\t \u{1b}[1mecx:\u{1b}[0m %08x\t \u{1b}[1medx\u{1b}[0m: %08x\n"
      (num_arg r.eax ∷ num_arg r.ebx ∷ num_arg r.ecx ∷ num_arg r.edx ∷ [])
    ∷ printed
        "\t\t \u{1b}[1medi:\u{1b}[0m %08x\t \u{1b}[1mesi:\u{1b}[0m %08x\t \u{1b}[1mebp:\u{1b}[0m %08x\t \u{1b}[1mss:esp:\u{1b}[0m %02x:%08x\n"
        (num_arg r.edi ∷ num_arg r.esi ∷ num_arg r.ebp ∷ num_arg r.ss ∷ num_arg r.esp ∷ [])
    ∷ printed
        "\t\t \u{1b}[1mcs:eip:\u{1b}[0m %02x:%08x  \u{1b}[1mds:\u{1b}[0m %02x \u{1b}[1mes:\u{1b}[0m %02x \u{1b}[1mfs:\u{1b}[0m %02x  \u{1b}[1mgs:\u{1b}[0m %02x\n"
        (num_arg r.cs
          ∷ num_arg r.eip
          ∷ num_arg r.ds
          ∷ num_arg r.es
          ∷ num_arg r.fs
          ∷ num_arg r.gs
          ∷ [])
    ∷ []

-- The last call: `strflags` holds the names of the flags.
unfoldable pub flags_message : FaultRegs → Message
flags_message r =
    printed "\t\t \u{1b}[1meflags:\u{1b}[0m %08x [%s]\n\n"
      (num_arg r.eflags ∷ text_arg (b' ' ∷ flag_names r.eflags eflags_tests) ∷ [])

-- The calls of `FaultDispatcher` for a fault that no handler has solved, with the name of the
-- fault.
unfoldable pub fatal_messages : FaultRegs → String → List Message
fatal_messages r name =
    printed "\n\n\t" []
    ∷ logged "\t fatal exception #%d (%s), code %08x\n"
        (num_arg r.int_no ∷ text_arg (codes name) ∷ num_arg r.error_code ∷ [])
    ∷ printed "\t \u{1b}[41;37;1mpanic:\u{1b}[0m fatal exception #%d (%s), code %08x\n"
        (num_arg r.int_no ∷ text_arg (codes name) ∷ num_arg r.error_code ∷ [])
    ∷ (register_messages r ++ (flags_message r ∷ []))

unfoldable pub dispatcher_messages : FaultRegs → Option (List Message)
dispatcher_messages r = elim (exception_str r.int_no) [
  | none ↦ none
  | some name ↦ some (fatal_messages r name)
]

-- The first calls of the page fault handler, for the address `cr2`.
unfoldable pub where_messages : FaultRegs → ℕ → List Message
where_messages r cr2 =
    if ltb cr2 0x1000
    then logged "page fault: null pointer dereference eip 0x%08x\n\t flags: %02x \u{1b}[1m"
        (num_arg r.eip ∷ num_arg r.error_code ∷ [])
      ∷ printed
          "\t \u{1b}[41;37;1mpanic:\u{1b}[0m page fault: null pointer dereferenced\n\t flags: \u{1b}[1m"
          (num_arg cr2 ∷ [])
      ∷ []
    else logged "unrecoverable page fault at address 0x%08x ip 0x%08x\n\t flags: %02x \u{1b}[1m"
        (num_arg cr2 ∷ num_arg r.eip ∷ num_arg r.error_code ∷ [])
      ∷ printed
          "\t \u{1b}[41;37;1mpanic:\u{1b}[0m unrecoverable page fault at address 0x%08x\n\t flags: \u{1b}[1m"
          (num_arg cr2 ∷ [])
      ∷ []

-- The two words of `if (regs->error_code & mask)`.
abbrev pub kind : ℕ → ℕ → String → String → Message
kind error_code mask set clear =
    if bit_and error_code mask == 0 then printed clear [] else printed set []

unfoldable pub state_messages : FaultRegs → ℕ → List Message
state_messages r cr3 =
    printed " \u{1b}[0m\n\t code %02x\n" (num_arg r.error_code ∷ [])
    ∷ (register_messages r
        ++ (printed "\t\t \u{1b}[1mcr3:\u{1b}[0m 0x%08x\n" (num_arg cr3 ∷ [])
            ∷ flags_message r
            ∷ []))

abbrev pub opening : List Message
opening = printed "\n\n" [] ∷ printed "\t \u{1b}[1mFUCK.\u{1b}[0m\n\t" [] ∷ []

unfoldable pub page_fault_messages : FaultRegs → ℕ → ℕ → List Message
page_fault_messages r cr2 cr3 =
    opening
    ++ (where_messages r cr2
        ++ (kind r.error_code 0x1 " protection" " nonpresent"
            ∷ kind r.error_code 0x2 " write" " read"
            ∷ kind r.error_code 0x4 " user" " kernel"
            ∷ state_messages r cr3))
