-- ===== src/Base/Bytes.antt =====
-- Byte memory. The low eight bits of a cell are the byte stored there.
use Prim.Native.Nat.{ℕ, ◌+◌, ◌*◌, ◌%◌, ◌^◌}
use Prim.Native.Char.{code}
use Prim.Native.String.{String}
use mathlib.Core.List.{List, [], ◌∷◌}
use mathlib.Core.Path.{◌≡◌}
use ann_os.Base.Tests.{◌==◌, if◌then◌else◌}

abbrev pub Memory : Type 0
Memory = ℕ → ℕ

abbrev pub load8 : Memory → ℕ → ℕ
load8 m a = m a % 256

abbrev pub update : Memory → ℕ → ℕ → Memory
update m p v q = if p == q then v else m q

abbrev pub store8 : Memory → ℕ → ℕ → Memory
store8 m p v = update m p (v % 256)

-- Little-endian words of two, four and eight bytes.
abbrev pub load16 : Memory → ℕ → ℕ
load16 m a = load8 m a + load8 m (a + 1) * 2 ^ 8

abbrev pub load32 : Memory → ℕ → ℕ
load32 m a = load16 m a + load16 m (a + 2) * 2 ^ 16

abbrev pub load64 : Memory → ℕ → ℕ
load64 m a = load32 m a + load32 m (a + 4) * 2 ^ 32

-- The characters of a literal.
abbrev pub codes : String → List ℕ
codes String.[] = []
codes (String.◌∷◌ c s) = code c ∷ codes s

-- The bytes that stand from an address on.
abbrev pub Holds : Memory → ℕ → List ℕ → Type 0
Holds m a [] = Unit
Holds m a (c ∷ cs) = (load8 m a ≡ c) × Holds m (a + 1) cs
