-- ===== src/Fault/Tests.antt =====
-- The names of the flags at a concrete input.
use ann_os.Base.{List, ℕ, ◌+◌, ◌≤◌, ◌<◌, ◌≡◌, ◌⊎◌, ok, some, true, arith, Memory, [], ◌∷◌}
use ann_os.Libk.Format.Writing.{Text}
use ann_os.Fault.Report.{FaultRegs, Message, dispatcher_messages, page_fault_messages}
use ann_os.Fault.Report.Formats.{all_fit, messages-fit}
use ann_os.Fault.Flags.{decode_eflags, flag_names, decode_eflags-flag_names}

abbrev blank : Memory
blank a = 0

-- With interrupts enabled and the carry flag set.
decode_eflags-flag_names_example :
    (m' : Memory) × (decode_eflags 64 0x8000 0x203 blank ≡ ok m')
    × Text m' 0x8000 (b' ' ∷ b'C' ∷ b'F' ∷ b' ' ∷ b'I' ∷ b'F' ∷ b' ' ∷ [])
    × ((q : ℕ) → (q < 0x8000) ⊎ (0x8000 + 64 ≤ q) → m' q ≡ blank q)
unfolding flag_names
decode_eflags-flag_names_example = decode_eflags-flag_names 64 0x8000 0x203 blank (omega arith)

-- Registers of a page fault in the kernel.
abbrev crashed : FaultRegs
crashed = record {
  gs = 0x10;
  fs = 0x10;
  es = 0x10;
  ds = 0x10;
  edi = 0;
  esi = 0;
  ebp = 0xc0108f00;
  old_esp = 0;
  ebx = 0;
  edx = 0xdeadbeef;
  ecx = 0;
  eax = 1;
  int_no = 14;
  error_code = 2;
  eip = 0xc0100123;
  cs = 0x8;
  eflags = 0x202;
  esp = 0xc0108ef0;
  ss = 0x10;
}

messages-fit_example :
    ((ms : List Message) × (dispatcher_messages crashed ≡ some ms) × (all_fit ms ≡ true))
    × (all_fit (page_fault_messages crashed 0x10 0x101000) ≡ true)
messages-fit_example = messages-fit crashed 0x10 0x101000 (omega arith)
