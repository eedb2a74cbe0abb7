-- ===== src/Timer/Ticks.antt =====
-- The count and the rate of the timer of src/Timer.cpp and src/arch/x86/PIT.cpp.
use ann_os.Base.{
  ℕ, zero, suc, ◌+◌, ◌*◌, ◌%◌, ◌^◌, ◌<◌, ◌≡◌, refl, ◌∙◌, arith, Option, none, some, ◌∷◌,
}
use ann_os.Io.{History, wrote8}
use ann_os.Timer.{tick, ticks, set_timer, pit_initialize}

ticks-count : (n v : ℕ) → v < 2 ^ 64 → ticks n v ≡ (v + n) % 2 ^ 64
unfolding ticks tick
ticks-count zero v small = omega arith
ticks-count (suc n) v small = ticks-count n ((v + 1) % 2 ^ 64) (omega arith) ∙ omega arith

-- The divisor that the 8253 was last given: the low byte first, then the high one.
abbrev loaded_divisor : History → Option ℕ
loaded_divisor (wrote8 p high ∷ wrote8 q low ∷ h) = some (high * 256 + low)
loaded_divisor h = none

-- `Initialize` sets the count to 0 and gives the 8253 the divisor 1193, for a rate of 1000 Hz, and
-- `n` interrupts later the count is `n`, up to its 64 bits.
pit_initialize-ticks :
    (n : ℕ) (h : History)
    → let (v, h') = pit_initialize h in (loaded_divisor h' ≡ some 1193) × (ticks n v ≡ n % 2 ^ 64)
unfolding pit_initialize set_timer
pit_initialize-ticks n h = (refl, ticks-count n 0 (omega arith) ∙ omega arith)
