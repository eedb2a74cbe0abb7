-- ===== src/Kernel/Interrupts.antt =====
-- What any sequence of interrupts does to the running machine.
use ann_os.Base.{
  ℕ, ◌+◌, ◌%◌, ◌^◌, ◌<◌, ◌≡◌, ◌≢◌, refl, ◌==◌, leb, bit_at, true, false, if◌then◌else◌, List, [],
  ◌∷◌, length, arith, ℕ_discrete,
}
use ann_os.Io.{History, Hardware}
use ann_os.Pic.{master_command, slave_command, read_isr, send_eoi}
use ann_os.Pic.Eoi.{eois, eois-send_eoi}
use ann_os.Irq.Calls.{called, call_all, irq_dispatcher-call_all}
use ann_os.Timer.{tick}
use ann_os.Ps2.{on_irq, read_times}
use ann_os.Kernel.{Machine, call_device, take_interrupt, take_interrupts}
use ann_os.Kernel.Devices.{handlers_of}

-- How many of the interrupts are those of a line, and how many are those of lines from 8 on.
unfoldable pub of_line : ℕ → List ℕ → ℕ
of_line line [] = 0
of_line line (irqno ∷ irqs) = of_line line irqs + (if irqno == line then 1 else 0)

unfoldable pub from_slave : List ℕ → ℕ
from_slave [] = 0
from_slave (irqno ∷ irqs) = from_slave irqs + (if leb 8 irqno then 1 else 0)

module _ (hw : Hardware) (pit ps2 : ℕ) (apart : pit ≢ ps2) where
  -- The time and the history when the handlers of the line have run.
  abbrev pub handled : ℕ → Machine → ℕ × History
  handled irqno s =
      call_all (call_device hw pit ps2 irqno) (called s.irqs irqno) (s.ticks, s.history)

  -- Each interrupt of the sequence is in service when its handlers have run.
  abbrev pub InService : List ℕ → Machine → Type 0
  InService [] s = Unit
  InService (irqno ∷ irqs) s =
      (bit_at (read_isr hw (handled irqno s).1).0 irqno ≡ true)
      × InService irqs (take_interrupt hw pit ps2 irqno s)

  abbrev pub Wired : Machine → Type 0
  Wired s = (irqno : ℕ) → called s.irqs irqno ≡ handlers_of pit ps2 irqno

  handled-lines :
      (irqno : ℕ) (s : Machine)
      → Wired s
      → ((handled irqno s).0 ≡ (if irqno == 0 then (s.ticks + 1) % 2 ^ 64 else s.ticks))
        × ((port : ℕ) → eois port (handled irqno s).1 ≡ eois port s.history)
  unfolding call_device tick on_irq read_times eois
  handled-lines irqno s wired =
      let other : (ps2 == pit) ≡ false = ground arith in
      let self : (pit == pit) ≡ true = ground arith in
      let same : (ps2 == ps2) ≡ true = ground arith in
      rw (wired irqno) (elim (ℕ_discrete irqno 0) [
        | yes e ↦ rw (e, self) (refl, λ port. refl)
        | no not_timer ↦ elim (ℕ_discrete irqno 1) [
          | yes e ↦ rw (e, other, same) (refl, λ port. refl)
          | no not_keyboard ↦ elim (ℕ_discrete irqno 12) [
            | yes e ↦ rw (e, other, same) (refl, λ port. refl)
            | no not_mouse ↦ ground (arith)
          ]
        ]
      ])

  taken :
      (irqno : ℕ) (s : Machine)
      → take_interrupt hw pit ps2 irqno s
        ≡ record s { ticks = (handled irqno s).0; history = send_eoi hw irqno (handled irqno s).1 }
  unfolding take_interrupt
  taken irqno s =
      rw (
        irq_dispatcher-call_all hw (call_device hw pit ps2 irqno) s.irqs irqno (s.ticks, s.history))

  take_interrupt-Wired :
      (irqno : ℕ) (s : Machine) → Wired s → Wired (take_interrupt hw pit ps2 irqno s)
  take_interrupt-Wired irqno s wired line = rw (taken irqno s) (wired line)

  -- One interrupt that is in service.
  one_interrupt :
      (irqno : ℕ) (s : Machine)
      → Wired s
      → bit_at (read_isr hw (handled irqno s).1).0 irqno ≡ true
      → let s' = take_interrupt hw pit ps2 irqno s in
        (s'.ticks ≡ (if irqno == 0 then (s.ticks + 1) % 2 ^ 64 else s.ticks))
        × (eois master_command s'.history ≡ eois master_command s.history + 1)
        × (eois slave_command s'.history
            ≡ eois slave_command s.history + (if leb 8 irqno then 1 else 0))
  one_interrupt irqno s wired served =
      let (time, same) = handled-lines irqno s wired in
      let (slave, master) = eois-send_eoi hw irqno (handled irqno s).1 in
      rw (taken irqno s)
        (time, ground (arith, same master_command), ground (arith, same slave_command))

  -- For two different devices behind their lines as the kernel puts them, and any sequence of
  -- interrupts each of which the controller has in service when its handlers have run: the timer
  -- has counted exactly the interrupts of line 0, up to its 64 bits, the master was sent one end
  -- of interrupt for each interrupt, and the slave one for each of those from line 8 on.
  pub take_interrupts-counted :
      (irqs : List ℕ) (s : Machine)
      → s.ticks < 2 ^ 64
      → Wired s
      → InService irqs s
      → let s' = take_interrupts hw pit ps2 irqs s in
        (s'.ticks ≡ (s.ticks + of_line 0 irqs) % 2 ^ 64)
        × (eois master_command s'.history ≡ eois master_command s.history + length irqs)
        × (eois slave_command s'.history ≡ eois slave_command s.history + from_slave irqs)
  unfolding take_interrupts of_line from_slave
  take_interrupts-counted [] s small wired _ = (omega arith, omega arith, omega arith)
  take_interrupts-counted (irqno ∷ irqs) s small wired (served, rest) =
      let (time, master, slave) = one_interrupt irqno s wired served in
      let (time', master', slave') =
        take_interrupts-counted irqs (take_interrupt hw pit ps2 irqno s) (ground arith)
          (take_interrupt-Wired irqno s wired) rest in
      (ground (arith, time, time'), omega (arith, master, master'), omega (arith, slave, slave'))
