-- ===== src/Libk/Format/Tests.antt =====
-- The theorems on formatting at concrete inputs.
use ann_os.Base.{
  ℕ, ◌+◌, ◌-◌, ltb, leb, ◌≡◌, refl, ◌&&◌, ◌==◌, if◌then◌else◌, true, List, [], ◌∷◌, Memory, load8,
  Outcome, ok, panic, running, codes, inl, ◌++◌, arith, length, ◌≤◌, ◌<◌, ◌↔◌,
}
use ann_os.Libk.Format.{
  VaList, chars, vsprintf, format_loop, directive, convert, padding_loop, put_number, put_string,
  put_spaces, strcat, strcat_text, strcat_loop, append_text, strlen, spaces_loop,
}
use ann_os.Libk.Format.Writing.{Writes}
use ann_os.Libk.Format.Pieces.{Piece, plain, number, string, hexadecimal, Valids}
use ann_os.Libk.Format.Refinement.{vsprintf-rendering}
use ann_os.Libk.Format.Percent.{vsprintf-percent}
use ann_os.Libk.Format.Buffers.{num_size-width_iff, num_size, fitting}

abbrev byte_at : List ℕ → ℕ → ℕ
byte_at [] i = 0
byte_at (b ∷ bs) i = if i == 0 then b else byte_at bs (i - 1)

-- A format at 0x100 and the text "ab" at 0x200.
abbrev formats : List ℕ → Memory
formats fmt a =
    if leb 0x200 a && ltb a 0x203
    then byte_at (codes "ab") (a - 0x200)
    else if leb 0x100 a && ltb a 0x180
    then byte_at fmt (a - 0x100)
    else 0x3f

abbrev shown : ℕ → Outcome Memory → List ℕ
shown n (ok m) = chars m 0x300 n
shown n (panic msg) = []
shown n running = []

abbrev two_args : VaList
two_args i = if i == 0 then 42 else 0x200

run :
    shown 12 (vsprintf 20 (formats (codes "x%04x %4s;")) 0x300 0x100 two_args)
    ≡ codes "x002a ab  ;" ++ (0 ∷ [])
unfolding vsprintf format_loop directive convert padding_loop put_number put_string put_spaces
    strcat strcat_text strcat_loop append_text strlen spaces_loop ann_os.Libk.Text.inttostr
    ann_os.Libk.Text.digits ann_os.Libk.Text.pad ann_os.Libk.Text.strrev ann_os.Libk.Text.atoi
    ann_os.Libk.Text.strtoint ann_os.Libk.Text.strtoint_loop ann_os.Libk.Text.ipow
    ann_os.Libk.Text.square_loop
run = refl

-- The pieces of that format.
abbrev pieces : List Piece
pieces =
    plain b'x'
    ∷ number hexadecimal true 4 42 (codes "2a")
    ∷ plain b' '
    ∷ string 4 0x200 (codes "ab")
    ∷ plain b';'
    ∷ []

pieces_valid : Valids (formats (codes "x%04x %4s;")) 0x300 12 two_args 0 pieces
unfolding ann_os.Libk.Text.inttostr ann_os.Libk.Text.digits ann_os.Libk.Text.pad
    ann_os.Libk.Text.strrev
pieces_valid = (
  (omega arith, omega arith, λ e. absurd (omega arith)),
  (
    (omega arith, refl, omega arith, refl),
    (
      (omega arith, omega arith, λ e. absurd (omega arith)),
      (
        (
          omega arith,
          refl,
          omega arith,
          omega arith,
          (refl, omega arith, (refl, omega arith, refl)),
          inl (omega arith),
        ),
        ((omega arith, omega arith, λ e. absurd (omega arith)), tt),
      ),
    ),
  ),
)

vsprintf-rendering_example :
    (m' : Memory) × (vsprintf 50 (formats (codes "x%04x %4s;")) 0x300 0x100 two_args ≡ ok m')
    × Writes (formats (codes "x%04x %4s;")) 0x300 (codes "x002a ab  ;" ++ (0 ∷ [])) m'
unfolding ann_os.Libk.Text.pad
vsprintf-rendering_example =
    vsprintf-rendering (formats (codes "x%04x %4s;")) 0x300 0x100 two_args pieces 50
      (refl, (refl, (refl, (refl, (refl, (refl, (refl, (refl, (refl, (refl, (refl, tt)))))))))))
      (inl (omega arith)) pieces_valid (omega arith) (omega arith)

vsprintf-percent_example :
    (m' : Memory) × (vsprintf 9 (formats (codes "%%")) 0x300 0x100 two_args ≡ ok m')
    × (load8 m' 0x300 ≡ 0)
vsprintf-percent_example =
    vsprintf-percent (formats (codes "%%")) 0x300 0x100 two_args 5 (refl, (refl, (refl, tt)))
      (inl (omega arith))

-- `%08x` of 0x123.
num_size-width_iff_example :
    (length (codes "00000123") + 1 ≤ num_size hexadecimal)
    ↔ ((0x123 < fitting hexadecimal) × (8 < num_size hexadecimal))
unfolding ann_os.Libk.Text.inttostr ann_os.Libk.Text.digits ann_os.Libk.Text.pad
    ann_os.Libk.Text.strrev
num_size-width_iff_example =
    num_size-width_iff hexadecimal 0x123 8 b'0' (codes "00000123") (omega arith) refl
