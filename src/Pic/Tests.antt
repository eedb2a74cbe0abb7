-- ===== src/Pic/Tests.antt =====
-- The theorems on the interrupt controllers at concrete inputs.
use ann_os.Base.{
  ℕ, ◌+◌, ◌%◌, ◌<◌, ◌≡◌, false, ◌==◌, ◌&&◌, ◌||◌, leb, if◌then◌else◌, arith, bit_at, ok, some, [],
}
use ann_os.Io.{History, Hardware}
use ann_os.Pic.{master_command, slave_command, set_irq_mask, send_eoi, read_isr}
use ann_os.Pic.Mask.{last_write, set_irq_mask-bits}
use ann_os.Pic.Eoi.{eois, eois-send_eoi}

-- Every port reads 0x12.
abbrev steady : Hardware
steady h port = 0x12

set_irq_mask-bits_example :
    (h' : History) × (mask : ℕ) × (set_irq_mask steady 12 false [] ≡ ok h')
    × (last_write 0xa1 h' ≡ some mask)
    × ((j : ℕ)
        → j < 8
        → bit_at mask j ≡ (if 12 % 8 == j then false else bit_at (steady [] 0xa1 % 256) j))
    × ((port : ℕ) → (port == 0xa1) ≡ false → last_write port h' ≡ last_write port [])
set_irq_mask-bits_example = set_irq_mask-bits steady 12 false [] (omega arith)

eois-send_eoi_example :
    let in_service = bit_at (read_isr steady []).0 15 in
    (eois slave_command (send_eoi steady 15 [])
      ≡ eois slave_command [] + (if leb 8 15 && in_service then 1 else 0))
    × (eois master_command (send_eoi steady 15 [])
        ≡ eois master_command [] + (if leb 8 15 || in_service then 1 else 0))
eois-send_eoi_example = eois-send_eoi steady 15 []
