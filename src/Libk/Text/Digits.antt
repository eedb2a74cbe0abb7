-- ===== src/Libk/Text/Digits.antt =====
-- What the digits that src/libk/stdio.cpp writes stand for, and which texts it cannot read.
use ann_os.Base.{ℕ, ◌+◌, ◌*◌, ◌%◌, ◌^◌, ◌≤◌, ◌<◌, ◌≡◌, arith, List, [], ◌∷◌, panic, mul32}
use ann_os.Libk.Text.{strrev, ipow, char_value, strtoint_loop, strtoint}

-- The number that digits stand for, the lowest first.
abbrev value : ℕ → List ℕ → ℕ
value base [] = 0
value base (c ∷ cs) = char_value c + base * value base cs

-- The number that a text stands for, read from the first character on, after `acc`.
abbrev pub horner : ℕ → ℕ → List ℕ → ℕ
horner base acc [] = acc
horner base acc (c ∷ cs) = horner base (acc * base + char_value c) cs

-- `_strtoint` panics on a text of three characters, in a 32-bit base, whose last character is worth
-- less than the base while the last two together are worth at least the base and less than 2 ^ 32.
strtoint-three_digits :
    (a b c base : ℕ)
    → base < 2 ^ 32
    → char_value c < base
    → base ≤ char_value c + char_value b * base
    → char_value c + char_value b * base < 2 ^ 32
    → strtoint (a ∷ b ∷ c ∷ []) base ≡ panic "assertion failed"
unfolding strtoint strtoint_loop strrev ipow
strtoint-three_digits a b c base small digit big fits =
    let p = char_value b * base in
    let first : (0 + mul32 (char_value c) 1) % 2 ^ 64 ≡ char_value c = omega arith in
    let second : (char_value c + mul32 (char_value b) base) % 2 ^ 64 ≡ char_value c + p =
      omega arith in
    rw (first, second) (ground arith)
