-- ===== src/Print/Tests.antt =====
-- kprintf at a concrete input: the format `n=%d` at 0x100, the argument 42 and the buffer at 0x300.
use ann_os.Base.{
  ◌≡◌, refl, false, inl, ◌==◌, if◌then◌else◌, arith, Memory, ok, [], ◌∷◌, ◌++◌, List, codes, ◌⊎◌, ℕ,
  ◌+◌, ◌<◌, ◌≤◌,
}
use ann_os.Libk.Format.{VaList}
use ann_os.Libk.Format.Writing.{Writes}
use ann_os.Libk.Format.Pieces.{Piece, plain, number, decimal, Valids}
use ann_os.Vga.{Console, light_grey, black, with_cursor}
use ann_os.Vga.Escapes.{write_all}
use ann_os.Print.{kprintf}
use ann_os.Print.Rendering.{kprintf-rendering}

abbrev format : Memory
format a =
    if a == 0x100
    then b'n'
    else if a == 0x101
    then b'='
    else if a == 0x102
    then b'%'
    else if a == 0x103
    then b'd'
    else 0

abbrev screen : Console
screen = record { mem = format; ports = []; x_pos = 79; y_pos = 24 }

abbrev answers : VaList
answers i = 42

abbrev pieces : List Piece
pieces = plain b'n' ∷ plain b'=' ∷ number decimal false 0 42 (codes "42") ∷ []

pieces_valid : Valids format 0x300 5 answers 0 pieces
unfolding ann_os.Libk.Text.inttostr ann_os.Libk.Text.digits ann_os.Libk.Text.pad
    ann_os.Libk.Text.strrev
pieces_valid = (
  (omega arith, omega arith, λ e. absurd (omega arith)),
  (
    (omega arith, omega arith, λ e. absurd (omega arith)),
    ((omega arith, refl, omega arith, refl), tt),
  ),
)

kprintf-rendering_example :
    (m : Memory) × Writes format 0x300 (codes "n=42" ++ (0 ∷ [])) m
    × ((q : ℕ) → (q < 0x300) ⊎ (0x300 + (256 + 4) ≤ q) → m q ≡ format q)
    × (kprintf 30 5 0x300 0x100 answers screen
        ≡ with_cursor (ok (write_all (codes "n=42") light_grey black (record screen { mem = m }))))
unfolding ann_os.Libk.Text.pad
kprintf-rendering_example =
    kprintf-rendering 0x300 0x100 answers pieces 30 screen
      (refl, (refl, (refl, (refl, (refl, tt))))) (inl (omega arith)) pieces_valid (omega arith)
      (omega arith) (omega arith) (λ q l u. inl (omega arith))
      (omega arith, refl, (omega arith, refl, (omega arith, refl, (omega arith, refl, tt))))
      (omega arith)
