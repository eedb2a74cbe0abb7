-- ===== src/Idt.antt =====
-- src/arch/x86/IDT.cpp and src/include/arch/x86/IDT.hpp: the interrupt descriptor table.
-- `idt_flush` is assembly; what it is given is the pointer that `register` returns.
pub mod Gates
use ann_os.Base.{
  ℕ, ◌+◌, ◌-◌, ◌*◌, ◌/◌, ◌%◌, ◌^◌, leb, ◌==◌, if◌then◌else◌, bit_or, Outcome, ok, panic,
}

-- `enum InterruptType`
pub data InterruptType : Type 0 where
  interrupt trap : InterruptType

abbrev pub type_code : InterruptType → ℕ
type_code interrupt = 0xe
type_code trap = 0xf

pub record IdtDescriptor : Type 0 where
  pub offset_low : ℕ
  pub selector : ℕ
  pub zero_byte : ℕ
  pub type_attr : ℕ
  pub offset_high : ℕ

pub record IdtPointer : Type 0 where
  pub size : ℕ
  pub addr : ℕ

-- `_desc`
abbrev pub Descriptors : Type 0
Descriptors = ℕ → IdtDescriptor

-- The four assignments of `Set`.
abbrev pub with_gate : Descriptors → ℕ → ℕ → ℕ → InterruptType → Descriptors
with_gate desc intno addr selector type i =
    if i == intno
    then (record {
      offset_low = addr % 2 ^ 16;
      selector = selector % 2 ^ 16;
      zero_byte = (desc i).zero_byte;
      type_attr = bit_or (type_code type) 0x80;
      offset_high = addr / 2 ^ 16 % 2 ^ 16;
    })
    else desc i

unfoldable pub set_gate : Descriptors → ℕ → ℕ → ℕ → InterruptType → Outcome Descriptors
set_gate desc intno addr selector type =
    if leb 256 intno
    then panic "interrupt is bigger than 256"
    else ok (with_gate desc intno addr selector type)

-- `Register`: `sizeof(IDTDescriptor)` is 8. The argument is the address of the table.
unfoldable pub register : ℕ → IdtPointer
register table = record { size = (8 * 0x80 - 1) % 2 ^ 16; addr = table }
