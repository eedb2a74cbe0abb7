-- ===== src/Idt/Gates.antt =====
-- Which gates the processor reads after src/arch/x86/IDT.cpp has set one.
use ann_os.Base.{ℕ, ◌+◌, ◌*◌, ◌^◌, ◌≤◌, ◌<◌, ◌≡◌, ◌≢◌, ◌↔◌, refl, bit_or, ok, arith}
use ann_os.Idt.{
  InterruptType, interrupt, trap, type_code, IdtDescriptor, IdtPointer, Descriptors, with_gate,
  set_gate, register,
}

-- The address that a gate leads to.
abbrev pub offset : IdtDescriptor → ℕ
offset d = d.offset_high * 2 ^ 16 + d.offset_low

-- Whether the eight bytes of a gate lie within the limit of the table.
abbrev pub InLimit : IdtPointer → ℕ → Type 0
InLimit p intno = intno * 8 + 7 ≤ p.size

present_attr : (type : InterruptType) → bit_or (type_code type) 0x80 ≡ type_code type + 0x80
present_attr interrupt = refl
present_attr trap = refl

-- For a number below 256 and a 32-bit address, `Set` makes that gate lead to the address, present,
-- and leaves every other gate.
pub set_gate-offset :
    (desc : Descriptors) (intno addr selector : ℕ) (type : InterruptType)
    → intno < 256
    → addr < 2 ^ 32
    → (desc' : Descriptors) × (set_gate desc intno addr selector type ≡ ok desc')
      × (offset (desc' intno) ≡ addr)
      × ((desc' intno).type_attr ≡ type_code type + 0x80)
      × ((i : ℕ) → i ≢ intno → desc' i ≡ desc i)
unfolding set_gate
set_gate-offset desc intno addr selector type few small = (
  with_gate desc intno addr selector type,
  ground arith,
  ground arith,
  ground (arith, present_attr type),
  (λ i ne. ground arith),
)

-- The limit that `Register` gives the processor holds a gate exactly when its number is below 128,
-- although `Set` takes numbers up to 255.
register-limit_iff : (table intno : ℕ) → InLimit (register table) intno ↔ (intno < 128)
unfolding register
register-limit_iff table intno = ((λ h. omega arith), (λ h. omega arith))
