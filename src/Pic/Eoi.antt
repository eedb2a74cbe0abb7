-- ===== src/Pic/Eoi.antt =====
-- The end-of-interrupt commands that the driver sends.
use ann_os.Base.{ℕ, ◌+◌, ◌≡◌, ◌&&◌, ◌||◌, ◌==◌, leb, if◌then◌else◌, arith, bit_at, [], ◌∷◌}
use ann_os.Io.{wrote8, wrote32, read8, read32, History, Hardware}
use ann_os.Pic.{master_command, slave_command, read_isr, send_eoi}

-- How often the end-of-interrupt command 0x20 was written to a command port.
unfoldable pub eois : ℕ → History → ℕ
eois port [] = 0
eois port (wrote8 p v ∷ h) = if (p == port) && (v == 0x20) then eois port h + 1 else eois port h
eois port (wrote32 p v ∷ h) = eois port h
eois port (read8 p ∷ h) = eois port h
eois port (read32 p ∷ h) = eois port h

-- `SendEOI` acknowledges at the slave exactly a line from 8 on whose bit is set in the service
-- register, and at the master exactly a line from 8 on or one whose bit is set: a spurious
-- interrupt of the slave is still acknowledged at the master, one of the master not at all.
pub eois-send_eoi :
    (hw : Hardware) (irqno : ℕ) (h : History)
    → let in_service = bit_at (read_isr hw h).0 irqno in
      (eois slave_command (send_eoi hw irqno h)
        ≡ eois slave_command h + (if leb 8 irqno && in_service then 1 else 0))
      × (eois master_command (send_eoi hw irqno h)
          ≡ eois master_command h + (if leb 8 irqno || in_service then 1 else 0))
unfolding eois send_eoi read_isr
eois-send_eoi hw irqno h = ground arith
