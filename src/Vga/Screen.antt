-- ===== src/Vga/Screen.antt =====
-- The cursor stays on the screen, and the console writes only to the framebuffer.
use ann_os.Base.{
  ℕ, zero, suc, ◌+◌, ◌<◌, ◌≡◌, refl, ◌∙◌, inl, inr, true, false, ◌==◌, Bool-cases, Option-cases,
  arith, load8, none, some, Outcome, ok, panic, running, sym,
}
use ann_os.Vga.{
  Console, Escape, width, height, place_char, wrap_line, wrap_screen, write_char, escape_loop,
  write_loop, with_cursor, write_vga,
}

pub record IsOnScreen (v : Console) : Type 0 where
  pub column : v.x_pos < width
  pub row : v.y_pos < height

-- `WriteChar` keeps the cursor on the screen.
pub write_char-IsOnScreen :
    (c fgcolor bgcolor : ℕ) (v : Console)
    → IsOnScreen v
    → IsOnScreen (write_char c fgcolor bgcolor v)
unfolding write_char place_char wrap_line wrap_screen
write_char-IsOnScreen c fgcolor bgcolor v on = ground arith

-- The three ways of the loop of `WriteVGA`.
pub write_loop-end :
    (fuel color : ℕ) (e : Escape) (v : Console)
    → (load8 v.mem e.next == 0) ≡ true
    → write_loop (suc fuel) color e v ≡ ok v
unfolding write_loop
write_loop-end fuel color e v h = rw (h, write_loop)

pub write_loop-char :
    (fuel color : ℕ) (e : Escape) (v : Console)
    → (load8 v.mem e.next == 0) ≡ false
    → (load8 v.mem e.next == 27) ≡ false
    → write_loop (suc fuel) color e v
      ≡ write_loop fuel color
          (record e { next = e.next + 1 })
          (write_char (load8 v.mem e.next) e.setcolor e.backcolor v)
unfolding write_loop
write_loop-char fuel color e v h k = rw (h, k, write_loop)

pub write_loop-escape :
    (fuel color : ℕ) (e e' : Escape) (v : Console)
    → (load8 v.mem e.next == 0) ≡ false
    → (load8 v.mem e.next == 27) ≡ true
    → escape_loop fuel v.mem color (record e { next = e.next + 1 }) ≡ some e'
    → write_loop (suc fuel) color e v
      ≡ write_loop fuel color
          (record e' { next = e'.next + 1 })
          (write_char (load8 v.mem e'.next) e'.setcolor e'.backcolor v)
unfolding write_loop
write_loop-escape fuel color e e' v h k l = rw (h, k, l, write_loop)

write_loop-stuck :
    (fuel color : ℕ) (e : Escape) (v : Console)
    → (load8 v.mem e.next == 0) ≡ false
    → (load8 v.mem e.next == 27) ≡ true
    → escape_loop fuel v.mem color (record e { next = e.next + 1 }) ≡ none
    → write_loop (suc fuel) color e v ≡ running
unfolding write_loop
write_loop-stuck fuel color e v h k l = rw (h, k, l, write_loop)

write_loop-IsOnScreen :
    (fuel color : ℕ) (e : Escape) (v : Console) {v' : Console}
    → IsOnScreen v
    → write_loop fuel color e v ≡ ok v'
    → IsOnScreen v'
write_loop-IsOnScreen zero color e v on h = absurd (unfold write_loop in cc)
write_loop-IsOnScreen (suc fuel) color e v {v'} on h = elim (Bool-cases (load8 v.mem e.next == 0)) [
  | inl end ↦ let q : v ≡ v' = cc (write_loop-end fuel color e v end) in rw (← q) on
  | inr more ↦ elim (Bool-cases (load8 v.mem e.next == 27)) [
    | inr plain ↦
        write_loop-IsOnScreen fuel color _ _ (write_char-IsOnScreen _ _ _ v on)
          (sym (write_loop-char fuel color e v more plain) ∙ h)
    | inl esc ↦
        elim (Option-cases (escape_loop fuel v.mem color (record e { next = e.next + 1 }))) [
          | inl e' ↦ absurd (cc (write_loop-stuck fuel color e v more esc e'))
          | inr (e', found) ↦
              write_loop-IsOnScreen fuel color _ _ (write_char-IsOnScreen _ _ _ v on)
                (sym (write_loop-escape fuel color e e' v more esc found) ∙ h)
        ]
  ]
]

with_cursor-IsOnScreen :
    (o : Outcome Console) {v' : Console}
    → ((v : Console) → o ≡ ok v → IsOnScreen v)
    → with_cursor o ≡ ok v'
    → IsOnScreen v'
with_cursor-IsOnScreen (ok v) {v'} on h =
    let w = on v refl in record { column = ground (arith, w.column); row = ground (arith, w.row) }
with_cursor-IsOnScreen (panic msg) on h = absurd (cc)
with_cursor-IsOnScreen running on h = absurd (cc)

-- A call of `WriteVGA` that returns, with whatever text and escape sequences, leaves the cursor on
-- the screen if it was there before.
pub write_vga-IsOnScreen :
    (fuel str color : ℕ) (v : Console) {v' : Console}
    → IsOnScreen v
    → write_vga fuel str color v ≡ ok v'
    → IsOnScreen v'
unfolding write_vga
write_vga-IsOnScreen fuel str color v on h =
    with_cursor-IsOnScreen (write_loop fuel color _ v)
      (λ w e. write_loop-IsOnScreen fuel color _ v on e) h
