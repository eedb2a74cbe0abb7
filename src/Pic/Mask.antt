-- ===== src/Pic/Mask.antt =====
-- The interrupt masks that the driver writes.
use ann_os.Base.{
  ℕ, ◌-◌, ◌%◌, ◌^◌, ◌<◌, ◌≡◌, Bool, true, false, ◌==◌, if◌then◌else◌, arith, bit_or, bit_and,
  bit_at, bit_at-bit_or, bit_at-bit_and, ok, Option, none, some, [], ◌∷◌,
}
use ann_os.Io.{wrote8, wrote32, read8, read32, History, Hardware}
use ann_os.Pic.{
  master_data, slave_data, clear_all_irqs, initialize, reset, data_port, with_line, set_irq_mask,
}

-- The value that was last written to a port.
pub last_write : ℕ → History → Option ℕ
last_write port [] = none
last_write port (wrote8 p v ∷ h) = if p == port then some v else last_write port h
last_write port (wrote32 p v ∷ h) = last_write port h
last_write port (read8 p ∷ h) = last_write port h
last_write port (read32 p ∷ h) = last_write port h

with_line-bits :
    (status : Bool) (val irqline j : ℕ)
    → val < 256
    → irqline < 8
    → j < 8
    → bit_at (with_line status val irqline % 256) j
      ≡ (if irqline == j then status else bit_at val j)
unfolding with_line
with_line-bits true val irqline j h k l =
    let e : bit_or val (2 ^ irqline) % 256 % 256 ≡ bit_or val (2 ^ irqline) % 256 = omega arith in
    rw (e, bit_at-bit_or val irqline j h k l) (ground arith)
with_line-bits false val irqline j h k l =
    let x = bit_and val (255 - 2 ^ irqline) in
    let e : x % 256 % 256 ≡ x % 256 = omega arith in
    rw (e, bit_at-bit_and val irqline j h k l) (ground arith)

-- For the lines 0 to 15, `SetIRQMask` writes to the data port of the line's controller a mask that
-- has the line's bit as asked and the other seven bits as they were read, and leaves the other
-- controller's mask.
pub set_irq_mask-bits :
    (hw : Hardware) (irqno : ℕ) (status : Bool) (h : History)
    → irqno < 16
    → (h' : History) × (mask : ℕ) × (set_irq_mask hw irqno status h ≡ ok h')
      × (last_write (data_port irqno) h' ≡ some mask)
      × ((j : ℕ)
          → j < 8
          → bit_at mask j
            ≡ (if irqno % 8 == j then status else bit_at (hw h (data_port irqno) % 256) j))
      × ((port : ℕ) → (port == data_port irqno) ≡ false → last_write port h' ≡ last_write port h)
unfolding set_irq_mask last_write
set_irq_mask-bits hw irqno status h lt =
    let val = hw h (data_port irqno) % 256 in
    (
      wrote8 (data_port irqno) (with_line status val (irqno % 8) % 256)
          ∷ read8 (data_port irqno)
          ∷ h,
      with_line status val (irqno % 8) % 256,
      ground arith,
      ground arith,
      (λ j l. with_line-bits status val (irqno % 8) j (omega arith) (omega arith) l),
      (λ port ne. ground arith),
    )

-- `Initialize` ends with every line masked but the cascade, line 2 of the master; and `Reset` ends
-- with the two masks that it read before it initialised the controllers again.
pub reset-masks :
    (hw : Hardware) (h : History)
    → (last_write master_data (initialize h) ≡ some 0xfb)
      × (last_write slave_data (initialize h) ≡ some 0xff)
      × (last_write master_data (reset hw h) ≡ some (hw h master_data % 256))
      × (last_write slave_data (reset hw h) ≡ some (hw (read8 master_data ∷ h) slave_data % 256))
unfolding initialize clear_all_irqs reset last_write
reset-masks hw h = ground arith
