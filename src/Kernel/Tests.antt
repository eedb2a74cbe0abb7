-- ===== src/Kernel/Tests.antt =====
-- The theorems on the starting of the kernel at concrete inputs.
use ann_os.Base.{
  ℕ, Memory, ◌+◌, ◌-◌, ◌*◌, ◌/◌, ◌%◌, ◌^◌, ◌≡◌, refl, ◌==◌, if◌then◌else◌, [], ◌∷◌, none, arith,
  bit_at,
}
use ann_os.Io.{Hardware}
use ann_os.Irq.Calls.{called_from}
use ann_os.Pic.{master_command, slave_command, read_isr, send_eoi}
use ann_os.Pic.Eoi.{eois}
use ann_os.Pci.{decode}
use ann_os.Timer.{tick}
use ann_os.Irq.{irq_dispatcher, dispatch_from}
use ann_os.Ps2.{on_irq, read_times}
use ann_os.Kernel.{Machine, call_device, take_interrupt, take_interrupts}
use ann_os.Kernel.Main.{Platform}
use ann_os.Vmm.{Vmm}
use ann_os.Pmm.{Pmm}
use ann_os.Kernel.Devices.{wired, wired-called}
use ann_os.Kernel.Interrupts.{of_line, from_slave, take_interrupts-counted}

abbrev idle : Machine
idle = record {
  idt = λ i. record { offset_low = 0; selector = 0; zero_byte = 0; type_attr = 0; offset_high = 0 };
  faults = λ i. none;
  irqs = λ i p. none;
  ticks = 0;
  bus = record {
    pcidevs = λ i. record { bus = 0; dev = 0; func = 0; devobj = 0; reginfo = decode [] };
    pcidev_count = 0;
  };
  history = [];
}

-- Stubs of 16 bytes each.
abbrev stubs : ℕ → ℕ
stubs i = (0xc0100000 + 16 * i) % 2 ^ 32

-- Ports that read as 0.
abbrev silent : Hardware
silent h port = 0

-- Ports that read as 0xff: every line is in service.
abbrev busy : Hardware
busy h port = 0xff

abbrev waiting : Machine
waiting = record idle { irqs = wired idle.irqs 0x500 0x600 }

take_interrupts-counted_example :
    let s' = take_interrupts busy 0x500 0x600 (0 ∷ 1 ∷ 12 ∷ 0 ∷ []) waiting in
    (s'.ticks ≡ 2) × (eois master_command s'.history ≡ 0 + 4) × (eois slave_command s'.history ≡ 1)
unfolding of_line from_slave called_from bit_at read_isr call_device tick on_irq read_times
    take_interrupt irq_dispatcher dispatch_from send_eoi eois
take_interrupts-counted_example =
    take_interrupts-counted busy 0x500 0x600 (omega arith) (0 ∷ 1 ∷ 12 ∷ 0 ∷ []) waiting
      (omega arith) (wired-called idle.irqs 0x500 0x600 (λ i p. refl))
      (refl, (refl, (refl, (refl, tt))))

-- The structures of the boot loader, as words: the kernel's at 0x500, the boot information at
-- 0x600, and a memory map with one area of 8 MiB at 0x700.
abbrev loaded : ℕ → ℕ
loaded w =
    if w == 0x500
    then 0x2badb002
    else if w == 0x504
    then 0x600
    else if w == 0x508
    then 0x100000
    else if w == 0x50c
    then 0x110000
    else if w == 0x514
    then 0x101000
    else if w == 0x62c
    then 24
    else if w == 0x630
    then 0x700
    else if w == 0x700
    then 20
    else if w == 0x704
    then 0x100000
    else if w == 0x70c
    then 0x800000
    else if w == 0x714
    then 1
    else 0

-- The two literals of SMBIOS, and no entry point.
abbrev literals : Memory
literals a =
    if a == 0x800
    then b'_'
    else if a == 0x801
    then b'S'
    else if a == 0x802
    then b'M'
    else if a == 0x803
    then b'_'
    else if a == 0x810
    then b'_'
    else if a == 0x811
    then b'D'
    else if a == 0x812
    then b'M'
    else if a == 0x813
    then b'I'
    else if a == 0x814
    then b'_'
    else 0

abbrev small_machine : Platform
small_machine = record {
  ports = silent;
  memory = λ a. loaded (a - a % 4) / 256 ^ (a % 4) % 256;
  frames = λ f i.
      if f == 0x101000
      then (if i == 0 then 0x102003 else if i == 768 then 0x103003 else 0)
      else i * 4096 + 3;
  fault_stub = stubs;
  irq_stub = λ i. stubs (i + 64);
  on_page_fault = 0xc0200000;
  view = λ v. literals;
  pit = 0x500;
  ps2 = 0x600;
  entry_magic = 0x800;
  interm_magic = 0x810;
}

abbrev fresh : Vmm
fresh = record {
  window = λ t. 0;
  last_user = 0x1000;
  last_kernel = 0xc0400000;
  last_app_loader = 0x400000;
  pmm = record { mmap = []; mem = λ a. 0 };
}
