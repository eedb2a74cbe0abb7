-- ===== src/Print/Rendering.antt =====
-- What kprintf of src/libk/stdio_write.cpp puts on the screen.
use ann_os.Base.{
  ℕ, suc, ◌+◌, ◌≤◌, ◌<◌, ◌≡◌, false, ◌==◌, arith, Memory, Holds, List, [], ◌∷◌, ◌++◌, length, ok,
  ◌⊎◌, inl, inr,
}
use ann_os.Libk.Format.{VaList}
use ann_os.Libk.Format.Writing.{Writes, Apart, length-++}
use ann_os.Libk.Format.Pieces.{Piece, sources, rendering, Valids, cost}
use ann_os.Libk.Format.Refinement.{vsprintf-rendering}
use ann_os.Vga.{Console, light_grey, black, with_cursor}
use ann_os.Vga.Screen.{IsOnScreen}
use ann_os.Vga.Scrolling.{Elsewhere}
use ann_os.Vga.Escapes.{PlainText, EndsElsewhere, write_all, write_vga-PlainText}
use ann_os.Print.{kputs, kprintf}

-- Characters that start no escape sequence and end no text.
abbrev pub Plain : List ℕ → Type 0
Plain [] = Unit
Plain (c ∷ cs) = (0 < c) × ((c == 27) ≡ false) × Plain cs

abbrev pub Buffer : ℕ → ℕ → Type 0
Buffer str n = (q : ℕ) → str ≤ q → q ≤ str + n → Elsewhere q

Holds-PlainText :
    (m : Memory) (p : ℕ) (cs : List ℕ)
    → Plain cs
    → Buffer p (length cs)
    → Holds m p (cs ++ (0 ∷ []))
    → PlainText m p cs × EndsElsewhere p cs
Holds-PlainText m p [] plain out (end, _) = (end, out p (omega arith) (omega arith))
Holds-PlainText m p (c ∷ cs) (pos, other, plain) out (here, rest) =
    let (text, ends) =
      Holds-PlainText m (p + 1) cs plain (λ q l u. out q (omega arith) (omega arith)) rest in
    ((here, pos, other, out p (omega arith) (omega arith), text), ends)

-- For a format of plain characters, `%d`, `%x` and `%s` with widths of one digit, below 8 for `%x`,
-- where the arguments match, the numbers of `%d` are below 2 ^ 31 and those of `%x` below 2 ^ 28,
-- the format and the texts lie outside the
-- buffer, the buffer lies outside the framebuffer, the cursor is on the screen, and the text of
-- the pieces has no escape character and no zero byte, and the text fits the local buffer of
-- 256 + strlen(format) characters with the two bytes that vsprintf writes behind it, kprintf
-- returns: it writes that text to the console in light grey on black, and then moves the cursor;
-- vsprintf changes no byte outside the local buffer before.
pub kprintf-rendering :
    (str format : ℕ) (vl : VaList) (ps : List Piece) (fuel : ℕ) (cons : Console)
    → Holds cons.mem format (sources ps ++ (0 ∷ []))
    → Apart format (length (sources ps) + 1) str (length (rendering ps) + 1)
    → Valids cons.mem str (length (rendering ps) + 1) vl 0 ps
    → 0 < str
    → cost ps ≤ fuel
    → IsOnScreen cons
    → Buffer str (length (rendering ps))
    → Plain (rendering ps)
    → length (rendering ps) + 2 ≤ 256 + length (sources ps)
    → (m : Memory) × Writes cons.mem str (rendering ps ++ (0 ∷ [])) m
      × ((q : ℕ) → (q < str) ⊎ (str + (256 + length (sources ps)) ≤ q) → m q ≡ cons.mem q)
      × (kprintf fuel (suc (length (rendering ps))) str format vl cons
          ≡ with_cursor (ok (write_all (rendering ps) light_grey black (record cons { mem = m }))))
unfolding kprintf kputs
kprintf-rendering str format vl ps fuel cons held apart valid some_place enough on out plain room =
    let (m, returned, written) =
      vsprintf-rendering cons.mem str format vl ps fuel held apart valid some_place enough in
    let (text, ends) = Holds-PlainText m str (rendering ps) plain out written.text in
    (
      m,
      written,
      (λ q outside. elim outside [
        | inl below ↦ written.before q below
        | inr above ↦ written.behind q (omega (arith, length-++ (rendering ps) (0 ∷ [])))
      ]),
      rw returned (
          write_vga-PlainText (rendering ps) str light_grey (record cons { mem = m })
            (record { column = on.column; row = on.row }) ends text),
    )
