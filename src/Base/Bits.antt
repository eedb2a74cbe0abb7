-- ===== src/Base/Bits.antt =====
-- Single bits of a byte: what `|=`, `^=` and `&` with `1 << i` do to each bit.
use Prim.Native.Nat.{ℕ, zero, suc, ◌-◌, ◌^◌, ◌%◌, ◌<◌, bit_and, bit_or, bit_xor}
use mathlib.Core.Path.{◌≡◌, refl}
use mathlib.Core.Bool.{Bool, true, false, ◌&&◌, ◌||◌, not}
use native.Mathlib.Decide.{dec_lt}
use native.Mathlib.Omega.{arith}
use ann_os.Base.Tests.{◌==◌}

-- `byte & (1 << i)` as a condition.
unfoldable pub bit_at : ℕ → ℕ → Bool
bit_at byte i = not (bit_and byte (2 ^ i) == 0)

abbrev pub xor : Bool → Bool → Bool
xor true b = not b
xor false b = b

-- A test holds of every number under a bound, found by running it.
table : (ℕ → Bool) → ℕ → Bool
table test zero = true
table test (suc bound) = table test bound && test bound

table-entry :
    (test : ℕ → Bool) (bound : ℕ) {i : ℕ} → i < bound → table test bound ≡ true → test i ≡ true
unfolding table
table-entry test zero inside run = absurd (omega arith)
table-entry test (suc bound) {i} inside run = elim (dec_lt i bound) [
  | yes below ↦ table-entry test bound below (ground arith)
  | no last ↦ let e : i ≡ bound = omega arith in rw e (ground arith)
]

abbrev pub same : Bool → Bool → Bool
same true b = b
same false b = not b

pub same_eq : (a b : Bool) → same a b ≡ true → a ≡ b
same_eq a b h = ground arith

or_row : ℕ → ℕ → ℕ → Bool
unfolding bit_at
or_row b i j = same (bit_at (bit_or b (2 ^ i) % 256) j) ((i == j) || bit_at b j)

or_table : table (λ b. table (λ i. table (or_row b i) 8) 8) 256 ≡ true
unfolding table or_row
or_table = refl

xor_row : ℕ → ℕ → ℕ → Bool
unfolding bit_at
xor_row b i j = same (bit_at (bit_xor b (2 ^ i) % 256) j) (xor (i == j) (bit_at b j))

xor_table : table (λ b. table (λ i. table (xor_row b i) 8) 8) 256 ≡ true
unfolding table xor_row
xor_table = refl

lookup_row :
    (row : ℕ → ℕ → ℕ → Bool) (b i j : ℕ)
    → table (λ b. table (λ i. table (row b i) 8) 8) 256 ≡ true
    → b < 256
    → i < 8
    → j < 8
    → row b i j ≡ true
lookup_row row b i j run hb hi hj = table-entry (row b i) 8 hj (
    table-entry (λ i. table (row b i) 8) 8 hi
      (table-entry (λ b. table (λ i. table (row b i) 8) 8) 256 hb run))

pub bit_at-bit_or :
    (b i j : ℕ)
    → b < 256
    → i < 8
    → j < 8
    → bit_at (bit_or b (2 ^ i) % 256) j ≡ ((i == j) || bit_at b j)
bit_at-bit_or b i j hb hi hj =
    same_eq _ _ (unfold or_row in lookup_row or_row b i j or_table hb hi hj)

pub bit_at-bit_xor :
    (b i j : ℕ)
    → b < 256
    → i < 8
    → j < 8
    → bit_at (bit_xor b (2 ^ i) % 256) j ≡ xor (i == j) (bit_at b j)
bit_at-bit_xor b i j hb hi hj =
    same_eq _ _ (unfold xor_row in lookup_row xor_row b i j xor_table hb hi hj)

zero_row : table (λ i. not (bit_at 0 i)) 8 ≡ true
unfolding table bit_at
zero_row = refl

pub bit_at-zero : (i : ℕ) → i < 8 → bit_at 0 i ≡ false
bit_at-zero i h = ground (arith, table-entry (λ i. not (bit_at 0 i)) 8 h zero_row)

clear_row : ℕ → ℕ → ℕ → Bool
unfolding bit_at
clear_row b i j = same (bit_at (bit_and b (255 - 2 ^ i) % 256) j) (not (i == j) && bit_at b j)

clear_table : table (λ b. table (λ i. table (clear_row b i) 8) 8) 256 ≡ true
unfolding table clear_row
clear_table = refl

-- `byte &= ~(1 << i)`
pub bit_at-bit_and :
    (b i j : ℕ)
    → b < 256
    → i < 8
    → j < 8
    → bit_at (bit_and b (255 - 2 ^ i) % 256) j ≡ (not (i == j) && bit_at b j)
bit_at-bit_and b i j hb hi hj =
    same_eq _ _ (unfold clear_row in lookup_row clear_row b i j clear_table hb hi hj)

-- `byte |= 0x3` sets the two lowest bits.
low_row : ℕ → Bool
low_row b = bit_and (bit_or b 0x3 % 256) 0x3 == 0x3

low_table : table low_row 256 ≡ true
unfolding table low_row
low_table = refl

pub bit_and-bit_or_3 : (b : ℕ) → b < 256 → bit_and (bit_or b 0x3 % 256) 0x3 ≡ 0x3
unfolding low_row
bit_and-bit_or_3 b small = let row = table-entry low_row 256 small low_table in ground (arith, row)
