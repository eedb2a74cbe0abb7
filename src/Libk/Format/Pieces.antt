-- ===== src/Libk/Format/Pieces.antt =====
-- A format of vsprintf (src/libk/stdio.cpp) as a list of pieces, with the text that each one stands
-- for.
use ann_os.Base.{
  ℕ, zero, suc, ◌+◌, ◌-◌, ◌^◌, ◌<◌, ◌≡◌, ◌≢◌, Bool, true, false, some, List, [], ◌∷◌, ◌++◌, length,
  Memory,
}
use ann_os.Libk.Text.{pad, inttostr}
use ann_os.Libk.Format.{VaList}
use ann_os.Libk.Format.Writing.{Text, Apart, blanks}

pub data Radix : Type 0 where
  decimal : Radix
  hexadecimal : Radix

-- A character; `%d` or `%x`, with a flag for zeros and a width; `%s` with a width, for a text at an
-- address. A width of 0 is none.
pub data Piece : Type 0 where
  plain : (c : ℕ) → Piece
  number : (radix : Radix) (zeros : Bool) (width i : ℕ) (text : List ℕ) → Piece
  string : (width s : ℕ) (text : List ℕ) → Piece

abbrev pub base_of : Radix → ℕ
base_of decimal = 10
base_of hexadecimal = 16

abbrev pub letter : Radix → ℕ
letter decimal = b'd'
letter hexadecimal = b'x'

-- The numbers of which the text is that of the argument, and fits the local buffer: `%d` has no
-- sign, and `%x` seven digits.
abbrev pub bound : Radix → ℕ
bound decimal = 2 ^ 31
bound hexadecimal = 2 ^ 28

-- The widths of one digit that fit the local buffer.
abbrev pub width_bound : Radix → ℕ
width_bound decimal = 10
width_bound hexadecimal = 8

abbrev pub flag_text : Bool → List ℕ
flag_text true = b'0' ∷ []
flag_text false = []

abbrev pub fill : Bool → ℕ
fill true = b'0'
fill false = b' '

abbrev pub width_text : ℕ → List ℕ
width_text zero = []
width_text (suc w) = (b'0' + suc w) ∷ []

-- The format of a piece behind the `%`.
abbrev pub specifier : Bool → ℕ → ℕ → List ℕ
specifier zeros width c = flag_text zeros ++ (width_text width ++ (c ∷ []))

abbrev pub source : Piece → List ℕ
source (plain c) = c ∷ []
source (number radix zeros width i text) = b'%' ∷ specifier zeros width (letter radix)
source (string width s text) = b'%' ∷ specifier false width b's'

abbrev pub sources : List Piece → List ℕ
sources [] = []
sources (p ∷ ps) = source p ++ sources ps

abbrev pub rendered : Piece → List ℕ
rendered (plain c) = c ∷ []
rendered (number radix zeros width i text) = pad (width - length text) (fill zeros) ++ text
rendered (string width s text) = text ++ blanks (width - length text)

abbrev pub rendering : List Piece → List ℕ
rendering [] = []
rendering (p ∷ ps) = rendered p ++ rendering ps

abbrev pub arity : Piece → ℕ
arity (plain c) = 0
arity (number radix zeros width i text) = 1
arity (string width s text) = 1

-- The texts of a piece are those of the argument `k`, and a string stands in the memory, outside
-- the `n + 1` bytes from `dst` on.
abbrev pub Valid : Memory → ℕ → ℕ → VaList → ℕ → Piece → Type 0
Valid m dst n vl k (plain c) = (0 < c) × (c < 256) × (c ≢ b'%')
Valid m dst n vl k (number radix zeros width i text) =
    (width < width_bound radix)
    × (vl k ≡ i)
    × (i < bound radix)
    × (inttostr i (base_of radix) 0 b' ' ≡ some text)
Valid m dst n vl k (string width s text) =
    (width < 10)
    × (vl k ≡ s)
    × (s < 2 ^ 32)
    × (length text < 2 ^ 31)
    × Text m s text
    × Apart s (length text + 1) dst n

abbrev pub Valids : Memory → ℕ → ℕ → VaList → ℕ → List Piece → Type 0
Valids m dst n vl k [] = Unit
Valids m dst n vl k (p ∷ ps) = Valid m dst n vl k p × Valids m dst n vl (k + arity p) ps

-- Rounds that are enough for the loop of vsprintf and for each loop in it.
abbrev pub cost : List Piece → ℕ
cost [] = 1
cost (p ∷ ps) = 5 + length (rendered p) + cost ps
