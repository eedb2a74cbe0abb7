-- ===== src/Libk/Text.antt =====
-- src/libk/stdio.cpp: numbers as text. A buffer of characters is a list, without the terminator.
pub mod Digits
mod Tests
use ann_os.Base.{
  ℕ, zero, suc, ◌+◌, ◌-◌, ◌*◌, ◌/◌, ◌%◌, ◌^◌, Bool, true, false, ltb, leb, ◌==◌, ◌&&◌,
  if◌then◌else◌, Option, none, some, List, [], ◌∷◌, ◌++◌, length, mul32, Outcome, ok, panic,
  running, ◌>>=◌,
}

-- `table[idx]`, for an index below 36.
abbrev pub digit_char : ℕ → ℕ
digit_char idx = if ltb idx 10 then b'0' + idx else b'a' + (idx - 10)

-- The `while` of `_inttostr` and the last digit after it: the digits, the lowest first, or `none`
-- if they are more than the rounds given.
unfoldable pub digits : ℕ → ℕ → ℕ → Option (List ℕ)
digits zero num base = none
digits (suc rounds) num base =
    let rest = digits rounds (num / base) base in
    if ltb num base
    then some (digit_char num ∷ [])
    else elim rest [ none ↦ none | some ds ↦ some (digit_char (num % base) ∷ ds) ]

-- The loop that pads to `padding` characters; `rounds` is `padding` less the length.
unfoldable pub pad : ℕ → ℕ → List ℕ
pad zero padchar = []
pad (suc rounds) padchar = padchar ∷ pad rounds padchar

-- `strrev`
unfoldable pub strrev : List ℕ → List ℕ
strrev [] = []
strrev (c ∷ cs) = strrev cs ++ (c ∷ [])

-- `_inttostr`: what is stored at `retchar`. The local buffers `str` and `revstr` have room for 63
-- characters and the terminator; for a text that overruns them the result is `none`.
unfoldable pub inttostr : ℕ → ℕ → ℕ → ℕ → Option (List ℕ)
inttostr num base padding padchar = if leb 64 padding then none else elim (digits 63 num base) [
  | none ↦ none
  | some ds ↦ some (strrev (ds ++ pad (padding - length ds) padchar))
]

-- The loop of `ipow`, which multiplies the base with itself.
unfoldable pub square_loop : ℕ → ℕ → ℕ
square_loop zero base = base
square_loop (suc rounds) base = square_loop rounds (mul32 base base)

unfoldable pub ipow : ℕ → ℕ → ℕ
ipow base exp = if exp == 0 then 1 else if exp == 1 then base else square_loop (exp - 1) base

-- The value of a character in `_strtoint`: 0 if it is no digit and no letter.
abbrev pub char_value : ℕ → ℕ
char_value c =
    if leb b'a' c && leb c b'z'
    then c - b'a' + 10
    else if leb b'A' c && leb c b'Z'
    then c - b'A' + 10
    else if leb b'0' c && leb c b'9'
    then c - b'0'
    else 0

-- The loop of `_strtoint`, over the characters from the last one on. `assert` panics when it fails.
unfoldable pub strtoint_loop : List ℕ → ℕ → ℕ → ℕ → Outcome ℕ
strtoint_loop [] base n num = ok num
strtoint_loop (c ∷ cs) base n num =
    let rest =
      strtoint_loop cs base (n + 1) ((num + mul32 (char_value c) (ipow base n)) % 2 ^ 64) in
    if ltb num base then rest else panic "assertion failed"

unfoldable pub strtoint : List ℕ → ℕ → Outcome ℕ
strtoint str base = strtoint_loop (strrev str) base 0 0

-- `atoi` and `atol`: the 32 bits of the result.
unfoldable pub atoi : List ℕ → Outcome ℕ
atoi str = do num ← strtoint str 10; ok (num % 2 ^ 32)

-- `itoa`: the argument is the 32 bits of the number, which are extended by their sign.
unfoldable pub itoa : ℕ → Option (List ℕ)
itoa num = inttostr (if ltb num (2 ^ 31) then num else num + (2 ^ 64 - 2 ^ 32)) 10 0 b' '
