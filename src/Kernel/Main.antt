-- ===== src/Kernel/Main.antt =====
-- `kernel_main` of src/main.cpp, from the test of the magic number to its last loop, without its
-- messages.
use ann_os.Base.{
  ℕ, ◌+◌, ◌%◌, ◌<◌, ◌≡◌, ◌≢◌, ◌==◌, not, if◌then◌else◌, some, Memory, Outcome, ok, panic, ◌>>=◌,
}
use ann_os.Io.{Hardware}
use ann_os.Pmm.{Pmm}
use ann_os.Vmm.{Vmm, Frames}
use ann_os.Vmm.Unmapping.{cleared}
use ann_os.Vmm.Init.{vmm_init}
use ann_os.Boot.{boot_struct, has_magic, boot_pmm}
use ann_os.Idt.Gates.{offset}
use ann_os.Irq.Calls.{called}
use ann_os.Kernel.{Machine, install_interrupts, start_timer, read_smbios, start_devices}
use ann_os.Kernel.Devices.{handlers_of}

-- What the machine brings: its ports, the memory as bytes and, for the page tables, as words, the
-- memory that a virtual memory manager shows, and the addresses of the entry stubs, of
-- `fnPageFaultHandler`, of the two device objects and of the two literals of SMBIOS.
pub record Platform : Type 0 where
  pub ports : Hardware
  pub memory : Memory
  pub frames : Frames
  pub view : Vmm → Memory
  pub fault_stub : ℕ → ℕ
  pub irq_stub : ℕ → ℕ
  pub on_page_fault : ℕ
  pub pit : ℕ
  pub ps2 : ℕ
  pub entry_magic : ℕ
  pub interm_magic : ℕ

-- The argument `bs`, the rounds for each loop without a bound, and the state of the machine and of
-- the virtual memory manager before and after.
unfoldable pub kernel_main : Platform → ℕ → ℕ → Machine × Vmm → Outcome (Machine × Vmm)
kernel_main p bs fuel (s, v) =
    let b = boot_struct p.memory bs in
    if not (has_magic b) then panic "invalid boot magic number" else do
      s1 ← install_interrupts p.fault_stub p.irq_stub p.on_page_fault s
      pmm ← boot_pmm p.memory bs
      v' ← vmm_init p.frames b.phys_cr3_addr pmm v
      s2 ← start_timer p.ports p.pit p.ps2 s1
      v'' ← read_smbios fuel p.frames p.view p.entry_magic p.interm_magic v'
      s3 ← start_devices p.ports p.pit p.ps2 fuel s2
      ok (s3, v'')

-- The boot code's page directory: it is aligned, and its first entry is for another frame, `low`.
pub record BootTables (p : Platform) (bs low : ℕ) : Type 0 where
  pub aligned : (boot_struct p.memory bs).phys_cr3_addr % 4096 ≡ 0
  pub low_aligned : low % 4096 ≡ 0
  pub first : p.frames (boot_struct p.memory bs).phys_cr3_addr 0 ≡ low + 3
  pub apart : low ≢ (boot_struct p.memory bs).phys_cr3_addr

-- The machine when the kernel waits for interrupts, and the virtual memory manager `v1` that
-- `VMM::Init` leaves.
pub record Running (p : Platform) (pmm : Pmm) (low : ℕ) (s' : Machine) (v1 : Vmm) : Type 0 where
  pub lines : (i : ℕ) → i < 16 → offset (s'.idt (0x20 + i)) ≡ p.irq_stub i
  pub faults : (i : ℕ) → i < 15 → i ≢ 9 → offset (s'.idt i) ≡ p.fault_stub i
  pub page_faults : s'.faults 14 ≡ some p.on_page_fault
  pub handlers : (irqno : ℕ) → called s'.irqs irqno ≡ handlers_of p.pit p.ps2 irqno
  pub no_ticks : s'.ticks ≡ 0
  pub frames_from : v1.pmm ≡ pmm
  pub first_table :
      (t : ℕ) → t < 1024 → v1.window t ≡ (if t == 0 then 0 else cleared 768 240 (p.frames low) t)
