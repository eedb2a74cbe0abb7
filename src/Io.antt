-- ===== src/Io.antt =====
-- src/arch/x86/IO.cpp: port I/O. The history of accesses, newest first, is the state that drivers
-- share; what a read returns is up to the hardware, a function of the history and the port.
-- `iodelay` and the busy waits only pass time, and are left out.
use ann_os.Base.{ℕ, ◌%◌, ◌^◌, List, ◌∷◌}

pub data Access : Type 0 where
  wrote8 wrote32 : ℕ → ℕ → Access
  read8 read32 : ℕ → Access

abbrev pub History : Type 0
History = List Access

-- The value at a port after a history.
abbrev pub Hardware : Type 0
Hardware = History → ℕ → ℕ

abbrev pub out8 : ℕ → ℕ → History → History
out8 port val h = wrote8 port (val % 256) ∷ h

abbrev pub out32 : ℕ → ℕ → History → History
out32 port val h = wrote32 port (val % 2 ^ 32) ∷ h

-- The value read, and the history afterwards.
abbrev pub in8 : Hardware → ℕ → History → ℕ × History
in8 hw port h = (hw h port % 256, read8 port ∷ h)

abbrev pub in32 : Hardware → ℕ → History → ℕ × History
in32 hw port h = (hw h port % 2 ^ 32, read32 port ∷ h)
