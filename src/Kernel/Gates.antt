-- ===== src/Kernel/Gates.antt =====
-- Where every gate of the interrupt table leads when `kernel_main` enables interrupts.
use ann_os.Base.{
  ℕ, ◌+◌, ◌-◌, ◌<◌, ◌^◌, ◌≡◌, ◌≢◌, refl, sym, ap, ◌∙◌, ◌==◌, ◌||◌, ◌&&◌, leb, ltb, not, Bool, false,
  Bool-cases, if◌then◌else◌, List, [], ◌∷◌, some, ok, arith, inl, inr, ℕ_discrete,
}
use ann_os.Idt.{Descriptors}
use ann_os.Idt.Gates.{offset, set_gate-offset}
use ann_os.Fault.{
  Gate, FaultCode, fault_code, fault_gates, page_fault, install, fault_init, set_fault_handler,
}
use ann_os.Fault.Install.{irq_init-stubs}
use ann_os.Kernel.{Machine, install_interrupts}
use ann_os.Pic

-- Whether there is a call of `Set` for the number.
unfoldable pub has_gate : List Gate → ℕ → Bool
has_gate [] g = false
has_gate ((code, type) ∷ gates) g = (fault_code code == g) || has_gate gates g

fault_code-lt : (code : FaultCode) → fault_code code < 20
fault_code-lt code = grind arith

install-gates :
    (stub : ℕ → ℕ) (gates : List Gate) (desc : Descriptors)
    → ((i : ℕ) → stub i < 2 ^ 32)
    → (desc' : Descriptors) × (install stub gates desc ≡ ok desc')
      × ((g : ℕ) → offset (desc' g) ≡ (if has_gate gates g then stub g else offset (desc g)))
unfolding install has_gate
install-gates stub [] desc small = (desc, refl, λ g. refl)
install-gates stub ((code, type) ∷ gates) desc small =
    let (d, e, here, attr, others) =
      set_gate-offset desc (fault_code code) (stub (fault_code code)) 0x08 type
        (omega (arith, fault_code-lt code)) (small (fault_code code)) in
    let (d', e', rest) = install-gates stub gates d small in
    (d', rw e e', λ g. rest g ∙ step d g here others)
  where
    step :
        (d : Descriptors) (g : ℕ)
        → offset (d (fault_code code)) ≡ stub (fault_code code)
        → ((i : ℕ) → i ≢ fault_code code → d i ≡ desc i)
        → (if has_gate gates g then stub g else offset (d g))
          ≡ (if (fault_code code == g) || has_gate gates g then stub g else offset (desc g))
    step d g here others = elim (ℕ_discrete (fault_code code) g) [
      | yes e ↦ ground (arith, rw e at here)
      | no ne ↦
          let same = ap offset (others g (λ e. ne (sym e))) in
          let miss : (fault_code code == g) ≡ false = ground arith in rw (miss, same)
    ]

fault_gates-numbers : (g : ℕ) → has_gate fault_gates g ≡ (ltb g 15 && not (g == 9))
unfolding has_gate
fault_gates-numbers g = ground arith

-- For stubs at 32-bit addresses, `kernel_main` gets as far as enabling interrupts; then the gates
-- 0x20 to 0x2f lead to the stubs of the interrupt lines, the gates 0 to 14 without 9 to the
-- stubs of the faults, every other gate is as before, a page fault has its handler, and the
-- handlers of the interrupt lines are as before.
pub install_interrupts-gates :
    (fault_stub irq_stub : ℕ → ℕ) (on_page_fault : ℕ) (s : Machine)
    → ((i : ℕ) → fault_stub i < 2 ^ 32)
    → ((i : ℕ) → irq_stub i < 2 ^ 32)
    → (s' : Machine) × (install_interrupts fault_stub irq_stub on_page_fault s ≡ ok s')
      × ((g : ℕ)
          → offset (s'.idt g) ≡ (
              if leb 0x20 g && ltb g 0x30
              then irq_stub (g - 0x20)
              else if ltb g 15 && not (g == 9)
              then fault_stub g
              else offset (s.idt g)))
      × (s'.faults (fault_code page_fault) ≡ some on_page_fault)
      × (s'.irqs ≡ s.irqs)
unfolding install_interrupts fault_init
install_interrupts-gates fault_stub irq_stub on_page_fault s fault_small irq_small =
    let (d, e, faults) = install-gates fault_stub fault_gates s.idt fault_small in
    let (d', e', lines, others) = irq_init-stubs irq_stub d irq_small in
    (
      record s {
        idt = d';
        faults = set_fault_handler s.faults (fault_code page_fault) on_page_fault;
        history = Pic.initialize s.history;
      },
      rw (e, e') refl,
      (λ g. elim (Bool-cases (leb 0x20 g && ltb g 0x30)) [
        | inl line ↦
            let n : 0x20 + (g - 0x20) ≡ g = ground arith in
            rw line (rw n at (lines (g - 0x20) (ground arith)))
        | inr other ↦
            rw other
              (ap offset (others g (ground arith)) ∙ rw (fault_gates-numbers g) at (faults g))
      ]),
      refl,
      refl,
    )
