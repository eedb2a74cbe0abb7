-- ===== src/Serial/Output.antt =====
-- What src/DebugConsole.cpp sends over the serial port.
use ann_os.Base.{
  ℕ, suc, ◌+◌, ◌%◌, ◌≡◌, refl, sym, ap, ◌∙◌, true, Bool-cases, inl, inr, ◌==◌, if◌then◌else◌, List,
  [], ◌∷◌, ◌++◌, codes,
}
use ann_os.Io.{History, Hardware, wrote8, wrote32, read8, read32}
use ann_os.Vga.{light_grey}
use ann_os.Serial.{
  portno, empty_line, wait_line, write_serial_char, write_string, color_str, reset_str,
  write_serial, setup_port, title, greeting, new_serial,
}

-- The characters sent so far, the newest first.
abbrev pub sent : History → List ℕ
sent [] = []
sent (wrote8 p c ∷ h) = let rest = sent h in if p == portno then c ∷ rest else rest
sent (wrote32 p v ∷ h) = sent h
sent (read8 p ∷ h) = sent h
sent (read32 p ∷ h) = sent h

-- A line that is always empty.
abbrev pub Ready : Hardware → Type 0
Ready hw = (h : History) → empty_line (hw h (portno + 5) % 256) ≡ true

-- Characters pushed onto what was sent, one after the other.
abbrev pub push_all : List ℕ → List ℕ → List ℕ
push_all [] out = out
push_all (c ∷ cs) out = push_all cs (c % 256 ∷ out)

push_all-append : (cs ds out : List ℕ) → push_all (cs ++ ds) out ≡ push_all ds (push_all cs out)
push_all-append [] ds out = refl
push_all-append (c ∷ cs) ds out = push_all-append cs ds (c % 256 ∷ out)

-- The text with its escape sequences.
abbrev pub colored : List ℕ → ℕ → List ℕ
colored str color = if color == light_grey then str else color_str color ++ (str ++ reset_str)

module _ (hw : Hardware) (rounds : ℕ) where
  write_string-sent :
      (cs : List ℕ) (h : History)
      → Ready hw
      → sent (write_string hw (suc rounds) cs h) ≡ push_all cs (sent h)
  unfolding write_string write_serial_char wait_line
  write_string-sent [] h ready = refl
  write_string-sent (c ∷ cs) h ready =
      write_string-sent cs (write_serial_char hw (suc rounds) c h) ready
      ∙ ap (push_all cs) (rw (ready h) refl)

  -- On a line that is always empty, `WriteVGA` sends the text, each character as a byte, between
  -- the escape sequence of its colour and the one that resets it; light grey text is sent without
  -- any.
  write_serial-sent :
      (str : List ℕ) (color : ℕ) (h : History)
      → Ready hw
      → sent (write_serial hw (suc rounds) str color h) ≡ push_all (colored str color) (sent h)
  unfolding write_serial
  write_serial-sent str color h ready = elim (Bool-cases (color == light_grey)) [
    | inl plain ↦ rw plain (write_string-sent str h ready)
    | inr other ↦
        let before = write_string hw (suc rounds) (color_str color) h in
        let written = write_string hw (suc rounds) str before in
        rw other (
          write_string-sent reset_str written ready
          ∙ ap (push_all reset_str) (
              write_string-sent str before ready
              ∙ ap (push_all str) (write_string-sent (color_str color) h ready))
          ∙ sym (
              push_all-append (color_str color) (str ++ reset_str) (sent h)
              ∙ push_all-append str reset_str (push_all (color_str color) (sent h))))
  ]

  -- On a line that is always empty, the constructor sends its greeting behind what it sends to set
  -- up the port.
  new_serial-sent :
      (h : History)
      → Ready hw
      → sent (new_serial hw (suc rounds) h)
        ≡ push_all (codes title ++ codes greeting) (sent (setup_port h))
  unfolding new_serial
  new_serial-sent h ready =
      write_string-sent (codes greeting) (write_string hw (suc rounds) (codes title) (setup_port h))
        ready
      ∙ ap (push_all (codes greeting)) (write_string-sent (codes title) (setup_port h) ready)
      ∙ sym (push_all-append (codes title) (codes greeting) (sent (setup_port h)))
