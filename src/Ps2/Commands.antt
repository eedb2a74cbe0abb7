-- ===== src/Ps2/Commands.antt =====
-- What SendCommand of src/arch/x86/PS2.cpp returns.
use ann_os.Base.{
  ℕ, zero, suc, ◌+◌, ◌%◌, ◌≡◌, refl, ap, ◌∙◌, ◌↔◌, Bool, true, false, Bool-cases, inl, inr, ltb,
  ◌==◌, if◌then◌else◌, [], ◌∷◌, arith, ok, >>=-eq-ok, ok-injective,
}
use ann_os.Io.{History, Hardware, wrote8, wrote32, read8, read32, out8}
use ann_os.Ps2.{
  data_port, command_reg, is_full, is_acknowledge, flush, select, poll, answer, send_command,
}

-- The newest access has read an acknowledgement.
abbrev pub Answered : Hardware → History → Type 0
Answered hw [] = ⊥
Answered hw (wrote8 p v ∷ h) = ⊥
Answered hw (wrote32 p v ∷ h) = ⊥
Answered hw (read32 p ∷ h) = ⊥
Answered hw (read8 p ∷ h) = (p ≡ data_port) × (is_acknowledge (hw h p % 256) ≡ true)

-- How often the status was read.
abbrev pub polls : History → ℕ
polls [] = 0
polls (wrote8 p v ∷ h) = polls h
polls (wrote32 p v ∷ h) = polls h
polls (read32 p ∷ h) = polls h
polls (read8 p ∷ h) = let rest = polls h in if p == command_reg then rest + 1 else rest

-- A controller that never has anything to read.
abbrev pub Silent : Hardware → Type 0
Silent hw = (h : History) → is_full (hw h command_reg % 256) ≡ false

module _ (hw : Hardware) where
  poll-read :
      (left : ℕ) (h : History) → (t : History) × ((poll hw left h).1 ≡ read8 command_reg ∷ t)
  unfolding poll
  poll-read zero h = (h, refl)
  poll-read (suc left) h = elim (Bool-cases (is_full (hw h command_reg % 256))) [
    | inl full ↦ (h, rw full refl)
    | inr empty ↦ rw empty (poll-read left (read8 command_reg ∷ h))
  ]

  answer-Answered_iff :
      (full : Bool) (h t : History)
      → h ≡ read8 command_reg ∷ t
      → ((answer hw (full, h)).0 ≡ true) ↔ Answered hw ((answer hw (full, h)).1)
  unfolding answer
  answer-Answered_iff true h t e =
      ((λ acknowledged. (refl, acknowledged)), (λ answered. answered.1))
  answer-Answered_iff false h t e =
      ((λ never. absurd (cc)), rw e (λ status. absurd (omega (arith, status.0))))

  answer_of :
      (r : Bool × History) (t h' : History) (b : Bool)
      → r.1 ≡ read8 command_reg ∷ t
      → answer hw r ≡ (b, h')
      → (b ≡ true) ↔ Answered hw h'
  answer_of (full, h) t h' b e done = rw done at (answer-Answered_iff full h t e)

  -- SendCommand, if it returns, returns true exactly when its last access has read 0xaa or 0xfa
  -- from the data port.
  pub send_command-Answered_iff :
      (fuel code port value : ℕ) (h h' : History) (b : Bool)
      → send_command hw fuel code port value h ≡ ok (b, h')
      → (b ≡ true) ↔ Answered hw h'
  unfolding send_command
  send_command-Answered_iff fuel code port value h h' b e =
      let (h1, flushed, done) = >>=-eq-ok (flush hw fuel h) _ e in
      let h2 = out8 data_port code (select hw port h1) in
      let h3 = if ltb 0 value then out8 data_port value h2 else h2 in
      let (t, last) = poll-read 20 h3 in answer_of (poll hw 20 h3) t h' b last (ok-injective done)

  poll-Silent :
      (left : ℕ) (h : History)
      → Silent hw
      → ((poll hw left h).0 ≡ false) × (polls ((poll hw left h).1) ≡ polls h + (left + 1))
  unfolding poll
  poll-Silent zero h silent = (silent h, refl)
  poll-Silent (suc left) h silent =
      let (empty, counted) = poll-Silent left (read8 command_reg ∷ h) silent in
      rw (silent h) (empty, counted ∙ omega arith)

  flush-Silent :
      (fuel : ℕ) (h : History) → Silent hw → flush hw (suc fuel) h ≡ ok (read8 command_reg ∷ h)
  unfolding flush
  flush-Silent fuel h silent = rw (silent h) refl

  answer-empty : (r : Bool × History) → r.0 ≡ false → answer hw r ≡ (false, r.1)
  unfolding answer
  answer-empty (full, h) e = rw e refl

  polls-sent :
      (code port value : ℕ) (h : History)
      → polls (
          if ltb 0 value
          then out8 data_port value (out8 data_port code (select hw port h))
          else out8 data_port code (select hw port h))
        ≡ polls h
  polls-sent code port value h = ground arith

  -- On a controller that never has anything to read, SendCommand returns false after it has read
  -- the status once for the flush and 21 times for the answer.
  send_command-Silent :
      (fuel code port value : ℕ) (h : History)
      → Silent hw
      → (h' : History) × (send_command hw (suc fuel) code port value h ≡ ok (false, h'))
        × (polls h' ≡ polls h + 22)
  unfolding send_command
  send_command-Silent fuel code port value h silent =
      let h1 = read8 command_reg ∷ h in
      let h2 = out8 data_port code (select hw port h1) in
      let h3 = if ltb 0 value then out8 data_port value h2 else h2 in
      let (empty, counted) = poll-Silent 20 h3 silent in
      (
        (poll hw 20 h3).1,
        rw (flush-Silent fuel h silent) (ap ok (answer-empty (poll hw 20 h3) empty)),
        counted ∙ omega (arith, polls-sent code port value h1),
      )
