-- ===== src/Print.antt =====
-- src/libk/stdio_write.cpp: text for the screen. `cons`, the console of `init_stdio`, is the
-- argument of each function.
pub mod Rendering
mod Tests
use ann_os.Base.{ℕ, ◌+◌, Memory, store8, Outcome, ok, ◌>>=◌}
use ann_os.Libk.Format.{VaList, vsprintf}
use ann_os.Vga.{Console, light_grey, write_vga}

-- `kputs`, in the rounds given.
unfoldable pub kputs : ℕ → ℕ → Console → Outcome Console
kputs fuel s cons = write_vga fuel s light_grey cons

-- `kprintf`, with the local buffer of 256 + strlen(format) characters at `str`, in the same memory:
-- a longer text is written over what stands behind it. `fuel` rounds are for vsprintf, and
-- `rounds` for its text.
unfoldable pub kprintf : ℕ → ℕ → ℕ → ℕ → VaList → Console → Outcome Console
kprintf fuel rounds str format vl cons = do
  m ← vsprintf fuel cons.mem str format vl
  kputs rounds str (record cons { mem = m })

-- `kputc`, with the two characters at `ch`.
unfoldable pub kputc : ℕ → ℕ → ℕ → Console → Outcome Console
kputc rounds ch c cons =
    kputs rounds ch (record cons { mem = store8 (store8 cons.mem ch c) (ch + 1) 0 })
