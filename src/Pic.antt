-- ===== src/Pic.antt =====
-- src/arch/x86/i8259.cpp: the driver of the two interrupt controllers. `GetIRQMask` is a stub.
pub mod Mask
pub mod Eoi
mod Tests
use ann_os.Base.{
  ℕ, ◌+◌, ◌-◌, ◌*◌, ◌%◌, ◌^◌, Bool, not, leb, ltb, if◌then◌else◌, bit_and, bit_or, bit_xor, bit_at,
  Outcome, ok, panic,
}
use ann_os.Io.{History, Hardware, out8, in8}

-- `MasterPIC` and `SlavePIC`
abbrev pub master_command : ℕ
master_command = 0x20

abbrev pub master_data : ℕ
master_data = 0x21

abbrev pub slave_command : ℕ
slave_command = 0xa0

abbrev pub slave_data : ℕ
slave_data = 0xa1

unfoldable pub clear_all_irqs : History → History
clear_all_irqs h = out8 slave_data 0xff (out8 master_data (bit_xor 0xff 0x4) h)

-- Last write first: the begin of the initialisation, the vector offsets, the cascading, the mode.
unfoldable pub initialize : History → History
initialize h = clear_all_irqs (
    out8 slave_data 1 (
      out8 master_data 1 (
        out8 slave_data 2 (
          out8 master_data (2 ^ 2) (
            out8 slave_data (0x20 + 8) (
              out8 master_data (0x20 + 0)
                (out8 slave_command 0x11 (out8 master_command 0x11 h))))))))

-- The masks are saved before the initialisation and written back after it.
unfoldable pub reset : Hardware → History → History
reset hw h =
    let (pic1m, h1) = in8 hw master_data h in
    let (pic2m, h2) = in8 hw slave_data h1 in
    out8 slave_data pic2m (out8 master_data pic1m (initialize h2))

abbrev pub data_port : ℕ → ℕ
data_port irqno = if leb 8 irqno then slave_data else master_data

-- `val |= (1 << irqline)` or `val &= ~(1 << irqline)`
unfoldable pub with_line : Bool → ℕ → ℕ → ℕ
with_line status val irqline =
    (if status then bit_or val (2 ^ irqline) else bit_and val (255 - 2 ^ irqline)) % 256

unfoldable pub set_irq_mask : Hardware → ℕ → Bool → History → Outcome History
set_irq_mask hw irqno status h =
    let (val, h1) = in8 hw (data_port irqno) h in
    if leb 16 irqno
    then panic "the 8259 controller only support 15 IRQs"
    else ok (out8 (data_port irqno) (with_line status val (irqno % 8)) h1)

-- The slave's byte is read first.
unfoldable pub read_isr : Hardware → History → ℕ × History
read_isr hw h =
    let (slave, h1) = in8 hw slave_command (out8 slave_command 0x0b (out8 master_command 0x0b h)) in
    let (master, h2) = in8 hw master_command h1 in (bit_or (slave * 256) master, h2)

unfoldable pub send_eoi : Hardware → ℕ → History → History
send_eoi hw irqno h =
    let (isr, h1) = read_isr hw h in
    if leb 8 irqno
    then out8 master_command 0x20 (if bit_at isr irqno then out8 slave_command 0x20 h1 else h1)
    else if bit_at isr irqno
    then out8 master_command 0x20 h1
    else h1
