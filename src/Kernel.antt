-- ===== src/Kernel.antt =====
-- The steps of `kernel_main` (src/main.cpp) that put the parts together, in the order of the code.
-- What is only printed or logged is left out.
pub mod Gates
pub mod Devices
pub mod Interrupts
pub mod Main
mod Tests
use ann_os.Base.{
  ℕ, Bool, ◌==◌, if◌then◌else◌, List, [], ◌∷◌, none, some, Memory, Outcome, ok, ◌>>=◌,
}
use ann_os.Io.{History, Hardware}
use ann_os.Idt.{Descriptors}
use ann_os.Fault.{FaultHandlers, fault_init, irq_init}
use ann_os.Irq.{Handlers, set_handler, irq_dispatcher}
use ann_os.Timer.{tick, pit_initialize}
use ann_os.Pci.{PciBus}
use ann_os.Ps2.{initialize_ps2, on_irq}
use ann_os.Vmm.{Vmm, Frames}
use ann_os.Smbios.{detect}
use ann_os.Smbios.Walk.{initialize_smbios}
use ann_os.Pic
use ann_os.Pci

-- `ticks` is `Timer::v`.
pub record Machine : Type 0 where
  pub idt : Descriptors
  pub faults : FaultHandlers
  pub irqs : Handlers
  pub ticks : ℕ
  pub bus : PciBus
  pub history : History

-- From the start of the interrupt controller to `sti`. The arguments are the addresses of the
-- entry stubs and of `fnPageFaultHandler`.
unfoldable pub install_interrupts : (ℕ → ℕ) → (ℕ → ℕ) → ℕ → Machine → Outcome Machine
install_interrupts fault_stub irq_stub on_page_fault s = do
  let h = Pic.initialize s.history
  (desc, faults) ← fault_init fault_stub on_page_fault (s.idt, s.faults)
  desc' ← irq_init irq_stub 16 0 desc
  ok (record s { idt = desc'; faults = faults; history = h })

-- The SMBIOS step between the timer and the PCI bus: `Initialize` is called where `Detect` finds the
-- entry point. `view` is the memory under a virtual memory manager.
unfoldable pub read_smbios : ℕ → Frames → (Vmm → Memory) → ℕ → ℕ → Vmm → Outcome Vmm
read_smbios fuel frames view entry_magic interm_magic v =
    elim (detect entry_magic interm_magic (view v)) [
      | none ↦ ok v
      | some e ↦ do
        (_, w) ← initialize_smbios fuel frames view entry_magic interm_magic (some e) v
        ok w
    ]

-- `pit` and `ps2` are the addresses of the two device objects.
module _ (hw : Hardware) (pit ps2 : ℕ) where
  -- The timer and its handler.
  unfoldable pub start_timer : Machine → Outcome Machine
  start_timer s = do
    let (ticks, h1) = pit_initialize s.history
    (_, irqs1, h2) ← set_handler hw s.irqs 0 pit h1
    ok (record s { irqs = irqs1; ticks = ticks; history = h2 })

  -- From the PCI bus to the end.
  unfoldable pub start_devices : ℕ → Machine → Outcome Machine
  start_devices fuel s = do
    let (bus, h1) = Pci.initialize hw s.bus s.history
    (_, h2) ← initialize_ps2 hw fuel h1
    (_, irqs1, h3) ← set_handler hw s.irqs 1 ps2 h2
    (_, irqs2, h4) ← set_handler hw irqs1 12 ps2 h3
    ok (record s { irqs = irqs2; bus = bus; history = h4 })

  -- The call of `OnIRQ` of a device object.
  unfoldable pub call_device : ℕ → ℕ → ℕ × History → ℕ × History
  call_device irqno handler (t, h) =
      if handler == pit
      then ((tick t).0, h)
      else if handler == ps2
      then (t, on_irq hw irqno h)
      else (t, h)

  -- An interrupt of line `irqno` while the machine waits in its last loop.
  unfoldable pub take_interrupt : ℕ → Machine → Machine
  take_interrupt irqno s =
      let (t, h) = irq_dispatcher hw (call_device irqno) s.irqs irqno (s.ticks, s.history) in
      record s { ticks = t; history = h }

  unfoldable pub take_interrupts : List ℕ → Machine → Machine
  take_interrupts [] s = s
  take_interrupts (irqno ∷ irqs) s = take_interrupts irqs (take_interrupt irqno s)
