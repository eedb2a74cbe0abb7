-- ===== src/Vga/Escapes.antt =====
-- How `WriteVGA` reads its text.
use ann_os.Base.{
  ℕ, suc, ◌+◌, ◌<◌, ◌≡◌, ap, ◌∙◌, false, ◌==◌, arith, Memory, load8, ok, List, [], ◌∷◌, length,
  some,
}
use ann_os.Vga.{
  Console, Escape, write_char, escape_step, escape_loop, write_loop, black, with_cursor, write_vga,
}
use ann_os.Vga.Screen.{
  IsOnScreen, write_char-IsOnScreen, write_loop-end, write_loop-char, write_loop-escape,
}
use ann_os.Vga.Scrolling.{Elsewhere, write_char-Elsewhere}

-- The text `cs`, without escape sequences, stands with its terminator at address `p` outside the
-- framebuffer.
abbrev pub PlainText : Memory → ℕ → List ℕ → Type 0
PlainText m p [] = load8 m p ≡ 0
PlainText m p (c ∷ cs) =
    (load8 m p ≡ c) × (0 < c) × ((c == 27) ≡ false) × Elsewhere p × PlainText m (p + 1) cs

abbrev pub EndsElsewhere : ℕ → List ℕ → Type 0
EndsElsewhere p [] = Elsewhere p
EndsElsewhere p (c ∷ cs) = EndsElsewhere (p + 1) cs

-- The characters written one after the other in one pair of colours.
abbrev pub write_all : List ℕ → ℕ → ℕ → Console → Console
write_all [] fgcolor bgcolor v = v
write_all (c ∷ cs) fgcolor bgcolor v = write_all cs fgcolor bgcolor (write_char c fgcolor bgcolor v)

PlainText-write_char :
    (cs : List ℕ) (p c fgcolor bgcolor : ℕ) (v : Console)
    → IsOnScreen v
    → EndsElsewhere p cs
    → PlainText v.mem p cs
    → PlainText (write_char c fgcolor bgcolor v).mem p cs
PlainText-write_char [] p c fgcolor bgcolor v on out text =
    write_char-Elsewhere c fgcolor bgcolor p v on out ∙ text
PlainText-write_char (x ∷ cs) p c fgcolor bgcolor v on out text =
    let (here, pos, plain, there, rest) = text in
    (
      write_char-Elsewhere c fgcolor bgcolor p v on there ∙ here,
      pos,
      plain,
      there,
      PlainText-write_char cs (p + 1) c fgcolor bgcolor v on out rest,
    )

write_loop-PlainText :
    (cs : List ℕ) (color : ℕ) (e : Escape) (v : Console)
    → IsOnScreen v
    → EndsElsewhere e.next cs
    → PlainText v.mem e.next cs
    → write_loop (suc (length cs)) color e v ≡ ok (write_all cs e.setcolor e.backcolor v)
write_loop-PlainText [] color e v on out text = write_loop-end 0 color e v (ground arith)
write_loop-PlainText (c ∷ cs) color e v on out text =
    let (here, pos, plain, there, rest) = text in
    write_loop-char (suc (length cs)) color e v (ground arith) (rw here plain)
    ∙ rw here (
        write_loop-PlainText cs color (record e { next = e.next + 1 })
          (write_char c e.setcolor e.backcolor v)
          (write_char-IsOnScreen c e.setcolor e.backcolor v on) out
          (PlainText-write_char cs (e.next + 1) c e.setcolor e.backcolor v on out rest))

-- On a text without escape sequences, stored outside the framebuffer, `WriteVGA` returns: it writes
-- the characters one after the other in the given colour on black, and then moves the cursor.
pub write_vga-PlainText :
    (cs : List ℕ) (str color : ℕ) (v : Console)
    → IsOnScreen v
    → EndsElsewhere str cs
    → PlainText v.mem str cs
    → write_vga (suc (length cs)) str color v ≡ with_cursor (ok (write_all cs color black v))
unfolding write_vga
write_vga-PlainText cs str color v on out text = ap with_cursor (
    write_loop-PlainText cs color (record { next = str; setcolor = color; backcolor = black }) v on
      out text)

escape_loop-end :
    (fuel : ℕ) (m : Memory) (color : ℕ) (e : Escape)
    → load8 m e.next ≡ b'm'
    → escape_loop (suc fuel) m color e ≡ some (record e { next = e.next + 1 })
unfolding escape_loop
escape_loop-end fuel m color e h = rw (h, escape_loop)

escape_loop-bracket :
    (fuel : ℕ) (m : Memory) (color : ℕ) (e : Escape)
    → load8 m e.next ≡ b'['
    → escape_loop (suc fuel) m color e ≡ escape_loop fuel m color (record e { next = e.next + 1 })
unfolding escape_loop
escape_loop-bracket fuel m color e h =
    let step : escape_step (load8 m e.next) (load8 m (e.next + 1)) color e
        ≡ record e { next = e.next + 1 } =
      unfold escape_step in rw h in
    rw (h, escape_loop) (ap (escape_loop fuel m color) step)

-- Where a text ends in an escape sequence, `ESC [ m` and the terminator, the terminator is written
-- as a character and the loop goes on behind it, outside the text.
write_loop-past_end :
    (fuel color : ℕ) (e : Escape) (v : Console)
    → load8 v.mem e.next ≡ 27
    → load8 v.mem (e.next + 1) ≡ b'['
    → load8 v.mem (e.next + 1 + 1) ≡ b'm'
    → load8 v.mem (e.next + 1 + 1 + 1) ≡ 0
    → write_loop (suc (suc (suc fuel))) color e v
      ≡ write_loop
          (suc (suc fuel))
          color
          (record e { next = e.next + 1 + 1 + 1 + 1 })
          (write_char 0 e.setcolor e.backcolor v)
write_loop-past_end fuel color e v esc bracket end nul =
    write_loop-escape (suc (suc fuel)) color e (record e { next = e.next + 1 + 1 + 1 }) v
      (ground arith) (ground arith) scanned
    ∙ rw nul
  where
    scanned :
        escape_loop (suc (suc fuel)) v.mem color (record e { next = e.next + 1 })
        ≡ some (record e { next = e.next + 1 + 1 + 1 })
    scanned =
        escape_loop-bracket (suc fuel) v.mem color (record e { next = e.next + 1 }) bracket
        ∙ escape_loop-end fuel v.mem color (record e { next = e.next + 1 + 1 }) end
