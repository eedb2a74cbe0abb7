-- ===== src/Base/Or.antt =====
-- `|` with flags in bits that are clear: the flags of a page table entry under an aligned address.
use Prim.Native.Nat.{ℕ, zero, suc, ◌+◌, ◌/◌, ◌%◌, ◌≤◌, bit_or, bit_or-bitwise, digits, max}
use mathlib.Core.Path.{◌≡◌, refl, ◌∙◌}
use native.Mathlib.Omega.{arith}

digits-0 : (n a : ℕ) → a ≤ n → digits (λ b. b) max n a 0 ≡ a
digits-0 zero a le = omega arith
digits-0 (suc n) zero le = refl
digits-0 (suc n) (suc a) le = omega (arith, digits-0 n (suc a / 2) (omega arith))

digits-1 : (n a : ℕ) → a ≤ n → a % 2 ≡ 0 → digits (λ b. b) max n a 1 ≡ a + 1
digits-1 zero a le even = omega arith
digits-1 (suc n) zero le even = refl
digits-1 (suc n) (suc a) le even = omega (arith, digits-0 n (suc a / 2) (omega arith))

digits-3 : (n a : ℕ) → a ≤ n → a % 4 ≡ 0 → digits (λ b. b) max n a 3 ≡ a + 3
digits-3 zero a le even = omega arith
digits-3 (suc n) zero le even = refl
digits-3 (suc n) (suc a) le even = omega (arith, digits-1 n (suc a / 2) (omega arith) (omega arith))

pub bit_or-3 : (a : ℕ) → a % 4 ≡ 0 → bit_or a 3 ≡ a + 3
bit_or-3 a even = (λ i. bit_or-bitwise a 3 i) ∙ digits-3 a a (omega arith) even
