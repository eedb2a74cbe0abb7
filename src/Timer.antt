-- ===== src/Timer.antt =====
-- src/Timer.cpp and src/arch/x86/PIT.cpp: the millisecond counter and the 8253 that ticks it.
pub mod Ticks
use ann_os.Base.{
  ℕ, zero, suc, ◌+◌, ◌/◌, ◌%◌, ◌^◌, ◌==◌, if◌then◌else◌, Option, none, some, Outcome, ok, panic,
}
use ann_os.Io.{History, out8}

-- `Timer::v` after `Init`.
abbrev pub timer_init : ℕ
timer_init = 0

-- `Timer::Tick`: the new count, and the seconds that are printed.
unfoldable pub tick : ℕ → ℕ × Option ℕ
tick v =
    let next = (v + 1) % 2 ^ 64 in
    (next, if next % 1000 == 0 then some (next % 2 ^ 32 / 1000) else none)

-- `PIT::OnIRQ`, as often as the interrupt comes.
unfoldable pub ticks : ℕ → ℕ → ℕ
ticks zero v = v
ticks (suc n) v = ticks n (tick v).0

abbrev pub pit_rate : ℕ
pit_rate = 1193182

-- `uint16_t divisor`; `hz` is not 0.
abbrev pub pit_divisor : ℕ → ℕ
pit_divisor hz = pit_rate / hz % 2 ^ 16

unfoldable pub set_timer : ℕ → History → History
set_timer hz h =
    out8 0x40 (pit_divisor hz / 256) (out8 0x40 (pit_divisor hz % 256) (out8 0x43 0x36 h))

-- `PIT::Initialize`: the count and the history.
unfoldable pub pit_initialize : History → ℕ × History
pit_initialize h = (timer_init, set_timer 1000 h)
