-- ===== src/Fault/Install.antt =====
-- Where the gates lead that src/arch/x86/FaultHandler.cpp and src/arch/x86/IRQHandler.cpp set.
use ann_os.Base.{
  ℕ, zero, suc, ◌+◌, ◌≤◌, ◌<◌, ◌^◌, ◌≡◌, refl, sym, ap, ◌∙◌, ok, arith, ℕ_discrete, ◌⊎◌, inl,
}
use ann_os.Idt.{interrupt, Descriptors}
use ann_os.Idt.Gates.{offset, set_gate-offset}
use ann_os.Fault.{irq_init}

irq_init-gates :
    (stub : ℕ → ℕ) (rounds irqno : ℕ) (desc : Descriptors)
    → ((i : ℕ) → stub i < 2 ^ 32)
    → irqno + rounds ≤ 16
    → (desc' : Descriptors) × (irq_init stub rounds irqno desc ≡ ok desc')
      × ((i : ℕ) → irqno ≤ i → i < irqno + rounds → offset (desc' (0x20 + i)) ≡ stub i)
      × ((g : ℕ) → (g < 0x20 + irqno) ⊎ (0x20 + irqno + rounds ≤ g) → desc' g ≡ desc g)
unfolding irq_init
irq_init-gates stub zero irqno desc small fits =
    (desc, refl, (λ i low high. absurd (omega arith)), (λ g out. refl))
irq_init-gates stub (suc rounds) irqno desc small fits =
    let (d, e, here, attr, others) =
      set_gate-offset desc (0x20 + irqno) (stub irqno) 0x08 interrupt (omega arith) (small irqno) in
    let (d', e', later, kept) = irq_init-gates stub rounds (irqno + 1) d small (omega arith) in
    (
      d',
      rw e e',
      (λ i low high. elim (ℕ_discrete irqno i) [
        | yes same ↦
            ap offset (kept (0x20 + i) (inl (omega arith)))
            ∙ ap (λ k. offset (d (0x20 + k))) (sym same)
            ∙ here
            ∙ ap stub same
        | no other ↦ later i (omega arith) (omega arith)
      ]),
      (λ g out. kept g (ground arith) ∙ others g (ground arith)),
    )

-- `IRQHandler::Init` returns, for stubs at 32-bit addresses; the gates 0x20 to 0x2f then lead to
-- the stubs of the lines 0 to 15, and the other gates are as before.
pub irq_init-stubs :
    (stub : ℕ → ℕ) (desc : Descriptors)
    → ((i : ℕ) → stub i < 2 ^ 32)
    → (desc' : Descriptors) × (irq_init stub 16 0 desc ≡ ok desc')
      × ((i : ℕ) → i < 16 → offset (desc' (0x20 + i)) ≡ stub i)
      × ((g : ℕ) → (g < 0x20) ⊎ (0x30 ≤ g) → desc' g ≡ desc g)
irq_init-stubs stub desc small =
    let (d, e, gates, kept) = irq_init-gates stub 16 0 desc small (omega arith) in
    (d, e, (λ i l. gates i (omega arith) (omega arith)), (λ g out. kept g (ground arith)))
