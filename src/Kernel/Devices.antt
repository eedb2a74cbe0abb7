-- ===== src/Kernel/Devices.antt =====
-- Which handlers stand behind the interrupt lines when `kernel_main` has started its devices.
use ann_os.Base.{
  ℕ, ◌<◌, ◌≡◌, refl, ap, ◌∙◌, ◌%◌, ◌==◌, ◌||◌, leb, false, if◌then◌else◌, List, [], ◌∷◌, none, some,
  ok, arith, ℕ_discrete,
}
use ann_os.Io.{History, Hardware, in8, out8}
use ann_os.Pic.{data_port, with_line, set_irq_mask}
use ann_os.Irq.{Handlers, put_handler, set_handler, store_handler, max_irq_handlers}
use ann_os.Irq.Calls.{called, called_from-some, called_from-none, count_from-none}
use ann_os.Pci
use ann_os.Pci.{PciBus}
use ann_os.Ps2.Enabling.{Drains, initialize_ps2-enabled}
use ann_os.Timer.{timer_init, pit_initialize}
use ann_os.Kernel.{Machine, start_timer, start_devices}

-- The history with the line's mask bit cleared.
abbrev line_enabled : Hardware → ℕ → History → History
line_enabled hw irqno h =
    let (val, h1) = in8 hw (data_port irqno) h in
    out8 (data_port irqno) (with_line false val (irqno % 8)) h1

set_handler-returns :
    (hw : Hardware) (table : Handlers) (irqno handler : ℕ) (h : History)
    → irqno < 16
    → table irqno 0 ≡ none
    → (h' : History) × (set_handler hw table irqno handler h
        ≡ ok (0, put_handler table irqno 0 (some handler), h'))
unfolding set_handler store_handler set_irq_mask
set_handler-returns hw table irqno handler h line free =
    let count = count_from-none table irqno max_irq_handlers 0 free in
    let small : leb 16 irqno ≡ false = ground arith in
    (line_enabled hw irqno h, rw (small, count) refl)

-- The lines that `kernel_main` takes.
abbrev pub handlers_of : ℕ → ℕ → ℕ → List ℕ
handlers_of pit ps2 irqno =
    if irqno == 0 then pit ∷ [] else if (irqno == 1) || (irqno == 12) then ps2 ∷ [] else []

-- The tables with a handler for each of these lines and no other.
abbrev pub wired : Handlers → ℕ → ℕ → Handlers
wired table pit ps2 =
    put_handler (put_handler (put_handler table 0 0 (some pit)) 1 0 (some ps2)) 12 0 (some ps2)

called-single :
    (table : Handlers) (irqno handler : ℕ)
    → table irqno 0 ≡ some handler
    → table irqno 1 ≡ none
    → called table irqno ≡ handler ∷ []
called-single table irqno handler here behind =
    called_from-some table irqno 15 0 handler here
    ∙ ap (λ t. handler ∷ t) (called_from-none table irqno 15 1 behind)

pub wired-called :
    (table : Handlers) (pit ps2 : ℕ)
    → ((i p : ℕ) → table i p ≡ none)
    → (irqno : ℕ) → called (wired table pit ps2) irqno ≡ handlers_of pit ps2 irqno
wired-called table pit ps2 free irqno = elim (ℕ_discrete irqno 0) [
  | yes e ↦ rw e (called-single (wired table pit ps2) 0 pit refl (free 0 1))
  | no not_timer ↦ elim (ℕ_discrete irqno 1) [
    | yes e ↦ rw e (called-single (wired table pit ps2) 1 ps2 refl (free 1 1))
    | no not_keyboard ↦ elim (ℕ_discrete irqno 12) [
      | yes e ↦ rw e (called-single (wired table pit ps2) 12 ps2 refl (free 12 1))
      | no not_mouse ↦
          let none_there : wired table pit ps2 irqno 0 ≡ none = ground (arith, free irqno 0) in
          called_from-none (wired table pit ps2) irqno max_irq_handlers 0 none_there ∙ ground arith
    ]
  ]
]

-- A machine of which no line has a handler starts its timer: it counts from 0, and its handler is
-- alone behind line 0.
pub start_timer-returns :
    (hw : Hardware) (pit ps2 : ℕ) (s : Machine)
    → s.irqs 0 0 ≡ none
    → (h' : History) × (start_timer hw pit ps2 s
        ≡ ok (record s {
          irqs = put_handler s.irqs 0 0 (some pit);
          ticks = timer_init;
          history = h';
        }))
unfolding start_timer pit_initialize
start_timer-returns hw pit ps2 s free =
    let (h', e) =
      set_handler-returns hw s.irqs 0 pit (pit_initialize s.history).1 (omega arith) free in
    (h', rw e refl)

-- Where `fuel` rounds empty the buffer of the PS/2 controller after any history, and the lines 1
-- and 12 have no handler yet, the other devices start: the PS/2 controller is behind both lines,
-- and the other tables and the counter are kept.
pub start_devices-returns :
    (hw : Hardware) (pit ps2 fuel : ℕ) (s : Machine)
    → s.irqs 1 0 ≡ none
    → s.irqs 12 0 ≡ none
    → Drains hw fuel
    → (bus : PciBus) × (h' : History) × (start_devices hw pit ps2 fuel s
        ≡ ok (record s {
          irqs = put_handler (put_handler s.irqs 1 0 (some ps2)) 12 0 (some ps2);
          bus = bus;
          history = h';
        }))
unfolding start_devices
start_devices-returns hw pit ps2 fuel s first second drains =
    let (bus, h1) = Pci.initialize hw s.bus s.history in
    let (n, h2, e2, _, _, _) = initialize_ps2-enabled hw fuel drains h1 in
    let (h3, e3) = set_handler-returns hw s.irqs 1 ps2 h2 (omega arith) first in
    let irqs1 = put_handler s.irqs 1 0 (some ps2) in
    let (h4, e4) = set_handler-returns hw irqs1 12 ps2 h3 (omega arith) second in
    (bus, h4, rw (e2, e3, e4) refl)

-- Both steps on a machine of which no line has a handler.
pub start_devices-handlers :
    (hw : Hardware) (pit ps2 fuel : ℕ) (s : Machine)
    → ((i p : ℕ) → s.irqs i p ≡ none)
    → Drains hw fuel
    → (s1 : Machine) × (s' : Machine) × (start_timer hw pit ps2 s ≡ ok s1)
      × (start_devices hw pit ps2 fuel s1 ≡ ok s')
      × (s'.ticks ≡ 0)
      × ((irqno : ℕ) → called s'.irqs irqno ≡ handlers_of pit ps2 irqno)
      × (s'.idt ≡ s.idt)
      × (s'.faults ≡ s.faults)
start_devices-handlers hw pit ps2 fuel s free drains =
    let (h1, e1) = start_timer-returns hw pit ps2 s (free 0 0) in
    let s1 : Machine = record s {
      irqs = put_handler s.irqs 0 0 (some pit);
      ticks = timer_init;
      history = h1;
    } in
    let (bus, h2, e2) = start_devices-returns hw pit ps2 fuel s1 (free 1 0) (free 12 0) drains in
    (s1, _, e1, e2, refl, wired-called s.irqs pit ps2 free, refl, refl)
