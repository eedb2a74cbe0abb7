-- ===== src/Ps2/Enabling.antt =====
-- What Initialize of src/arch/x86/PS2.cpp leaves behind, and that it ends.
use ann_os.Base.{
  ℕ, zero, suc, ◌%◌, ◌≡◌, refl, ap, sym, ◌∙◌, Bool, true, false, Bool-cases, inl, inr, ltb, leb,
  ◌==◌, ◌&&◌, if◌then◌else◌, [], ◌∷◌, arith, bit_and, bit_or, bit_and-bit_or_3, Outcome, ok,
  ok-injective, ◌>>=◌, Option, none, some,
}
use ann_os.Io.{History, Hardware, wrote8, wrote32, read8, read32, in8, out8}
use ann_os.Ps2.{
  data_port, command_reg, is_full, flush, select, poll, answer, send_command, reset_answers,
  reset_port, read_times, configure, reset_devices, identify, init_keyboard, enable, initialize_ps2,
}

-- Whether the newest of the commands `on` and `off` to the controller is `on`.
abbrev pub enabled : ℕ → ℕ → History → Bool
enabled on off [] = false
enabled on off (wrote8 p c ∷ h) =
    let rest = enabled on off h in
    if (p == command_reg) && (c == on)
    then true
    else if (p == command_reg) && (c == off)
    then false
    else rest
enabled on off (wrote32 p v ∷ h) = enabled on off h
enabled on off (read8 p ∷ h) = enabled on off h
enabled on off (read32 p ∷ h) = enabled on off h

abbrev pub first_enabled : History → Bool
first_enabled = enabled 0xae 0xad

abbrev pub second_enabled : History → Bool
second_enabled = enabled 0xa8 0xa7

-- The configuration that the controller was given last.
abbrev pub configuration : History → Option ℕ
configuration [] = none
configuration (wrote8 p v ∷ wrote8 q c ∷ h) =
    let rest = configuration (wrote8 q c ∷ h) in
    if (p == data_port) && ((q == command_reg) && (c == 0x60)) then some v else rest
configuration (wrote8 p v ∷ h) = configuration h
configuration (wrote32 p v ∷ h) = configuration h
configuration (read8 p ∷ h) = configuration h
configuration (read32 p ∷ h) = configuration h

-- From any history on, `fuel` rounds empty the buffer of the controller.
abbrev pub Drains : Hardware → ℕ → Type 0
Drains hw fuel = (h : History) → (h' : History) × (flush hw fuel h ≡ ok h')

abbrev Kept : History → History → Type 0
Kept h h' = second_enabled h' ≡ second_enabled h

-- A part of Initialize that returns, and does not enable or disable the second port.
abbrev Runs {ℓ} : {A : Type ℓ} → (A → History) → Outcome A → History → Type ℓ
Runs after o h = (r : _) × (o ≡ ok r) × Kept h (after r)

Runs->>= {ℓ κ} :
    {A : Type ℓ} {B : Type κ} (after : A → History) (later : B → History) (o : Outcome A)
    (f : A → Outcome B) (h : History)
    → Runs after o h
    → ((a : A) → Runs later (f a) (after a))
    → Runs later (o >>= f) h
Runs->>= after later o f h (a, returned, kept) next =
    let (b, returned', kept') = next a in (b, rw returned returned', kept' ∙ kept)

module _ (hw : Hardware) (fuel : ℕ) (drains : Drains hw fuel) where
  flush-Kept : (n : ℕ) (h h' : History) → flush hw n h ≡ ok h' → Kept h h'
  unfolding flush
  flush-Kept zero h h' e = absurd (cc)
  flush-Kept (suc n) h h' e = elim (Bool-cases (is_full (hw h command_reg % 256))) [
    | inl full ↦ flush-Kept n (read8 data_port ∷ read8 command_reg ∷ h) h' (rw full at e)
    | inr empty ↦
        let last : read8 command_reg ∷ h ≡ h' = ok-injective (rw empty at e) in
        ap second_enabled (sym last)
  ]

  flush-Runs : (h : History) → Runs (λ h'. h') (flush hw fuel h) h
  flush-Runs h = let (h', e) = drains h in (h', e, flush-Kept fuel h h' e)

  poll-Kept : (left : ℕ) (h : History) → Kept h ((poll hw left h).1)
  unfolding poll
  poll-Kept zero h = refl
  poll-Kept (suc left) h = elim (Bool-cases (is_full (hw h command_reg % 256))) [
    | inl full ↦ rw full refl
    | inr empty ↦ rw empty (poll-Kept left (read8 command_reg ∷ h))
  ]

  answer-Kept : (r : Bool × History) → Kept r.1 ((answer hw r).1)
  unfolding answer
  answer-Kept (true, h) = refl
  answer-Kept (false, h) = refl

  send_command-Runs :
      (code port value : ℕ) (h : History)
      → Runs (λ r. r.1) (send_command hw fuel code port value h) h
  unfolding send_command
  send_command-Runs code port value h =
      Runs->>= (λ h1. h1) (λ r. r.1) (flush hw fuel h) _ h (flush-Runs h)
        (λ h1.
          let h2 = out8 data_port code (select hw port h1) in
          let h3 = if ltb 0 value then out8 data_port value h2 else h2 in
          (
            answer hw (poll hw 20 h3),
            refl,
            answer-Kept (poll hw 20 h3) ∙ poll-Kept 20 h3 ∙ sent-Kept code port value h1,
          ))
    where
      sent-Kept :
          (code' port' value' : ℕ) (h1 : History)
          → Kept h1 (
              if ltb 0 value'
              then out8 data_port value' (out8 data_port code' (select hw port' h1))
              else out8 data_port code' (select hw port' h1))
      sent-Kept code' port' value' h1 = ground arith

  reset_answers-Kept : (h : History) → Kept h ((reset_answers hw h).1)
  unfolding reset_answers
  reset_answers-Kept h = ground arith

  select-Kept : (code port : ℕ) (h : History) → Kept h (out8 data_port code (select hw port h))
  select-Kept code port h = ground arith

  reset_port-Runs : (port : ℕ) (h : History) → Runs (λ r. r.1) (reset_port hw fuel port h) h
  unfolding reset_port
  reset_port-Runs port h =
      Runs->>= (λ h1. h1) (λ r. r.1) (flush hw fuel h) _ h (flush-Runs h)
        (λ h1.
          let h2 = out8 data_port 0xff (select hw port h1) in
          (reset_answers hw h2, refl, reset_answers-Kept h2 ∙ select-Kept 0xff port h1))

  reset_devices-Runs :
      (max_channels : ℕ) (h : History) → Runs (λ h'. h') (reset_devices hw fuel max_channels h) h
  unfolding reset_devices
  reset_devices-Runs max_channels h =
      Runs->>= (λ r. r.1) (λ h'. h') (reset_port hw fuel 1 h) _ h (reset_port-Runs 1 h)
        (λ (_, h1). elim (Bool-cases (leb 2 max_channels)) [
          | inl two ↦ rw two (
              Runs->>= (λ r. r.1) (λ h'. h') (reset_port hw fuel 2 h1) _ h1 (reset_port-Runs 2 h1)
                (λ (_, h2). (h2, refl, refl)))
          | inr one ↦ rw one (h1, refl, refl)
        ])

  Kept-if :
      (h : History) (b : Bool) (x y : ℕ × History)
      → Kept h x.1
      → Kept h y.1
      → Kept h ((if b then x else y).1)
  Kept-if h true x y first second = first
  Kept-if h false x y first second = second

  identify-Runs : (port : ℕ) (h : History) → Runs (λ r. r.1) (identify hw fuel port h) h
  unfolding identify
  identify-Runs port h =
      Runs->>= (λ r. r.1) (λ r. r.1) (send_command hw fuel 0xf5 port 0 h) _ h
        (send_command-Runs 0xf5 port 0 h)
        (λ (_, h1).
          Runs->>= (λ r. r.1) (λ r. r.1) (send_command hw fuel 0xf2 port 0 h1) _ h1
            (send_command-Runs 0xf2 port 0 h1)
            (λ (_, h2). (_, refl, Kept-if h2 (ltb 0x80 ((in8 hw data_port h2).0)) _ _ refl refl)))

  init_keyboard-Runs : (h : History) → Runs (λ h'. h') (init_keyboard hw fuel h) h
  unfolding init_keyboard
  init_keyboard-Runs h =
      Runs->>= (λ r. r.1) (λ h'. h') (send_command hw fuel 0xf0 1 2 h) _ h
        (send_command-Runs 0xf0 1 2 h)
        (λ (_, h1).
          Runs->>= (λ r. r.1) (λ h'. h') (send_command hw fuel 0xf4 1 0 h1) _ h1
            (send_command-Runs 0xf4 1 0 h1) (λ (_, h2). (h2, refl, refl)))

  configure-disabled : (h : History) → second_enabled ((configure hw h).1) ≡ false
  unfolding configure read_times
  configure-disabled h = ground arith

  enable-state :
      (max_channels : ℕ) (h : History)
      → second_enabled h ≡ false
      → (first_enabled (enable hw max_channels h) ≡ true)
        × (second_enabled (enable hw max_channels h) ≡ (max_channels == 2))
  unfolding enable
  enable-state max_channels h off = elim (Bool-cases (max_channels == 2)) [
    | inl two ↦ rw two (refl, refl)
    | inr one ↦ rw one (refl, off)
  ]

  enable-configuration :
      (max_channels : ℕ) (h : History)
      → (v : ℕ) × (configuration (enable hw max_channels h) ≡ some v) × (bit_and v 0x3 ≡ 0x3)
  unfolding enable
  enable-configuration max_channels h =
      let ccb = hw (out8 command_reg 0x20 h) data_port % 256 in
      let low = bit_and-bit_or_3 ccb (omega arith) in
      elim (Bool-cases (max_channels == 2)) [
        | inl two ↦ rw two (bit_or ccb 0x3 % 256, refl, low)
        | inr one ↦ rw one (bit_or ccb 0x3 % 256, refl, low)
      ]

  -- Where `fuel` rounds empty the buffer of the controller after any history, Initialize returns
  -- with that fuel. The last configuration that it has written enables both interrupts, the first
  -- port is enabled, and the second one exactly if there are two channels.
  pub initialize_ps2-enabled :
      (h : History)
      → (max_channels : ℕ) × (h' : History) × (initialize_ps2 hw fuel h ≡ ok (max_channels, h'))
        × ((v : ℕ) × (configuration h' ≡ some v) × (bit_and v 0x3 ≡ 0x3))
        × (first_enabled h' ≡ true)
        × (second_enabled h' ≡ (max_channels == 2))
  unfolding initialize_ps2
  initialize_ps2-enabled h =
      let n = (configure hw h).0 in
      let h1 = (configure hw h).1 in
      let (h2, e2, k2) = reset_devices-Runs n h1 in
      let ((_, h3), e3, k3) = identify-Runs 1 h2 in
      let ((_, h4), e4, k4) = identify-Runs 2 h3 in
      let (h5, e5, k5) = init_keyboard-Runs h4 in
      let ((_, h6), e6, k6) = send_command-Runs 0xf4 2 0 h5 in
      let off = k6 ∙ k5 ∙ k4 ∙ k3 ∙ k2 ∙ configure-disabled h in
      (
        n,
        enable hw n h6,
        rw (e2, e3, e4, e5, e6) refl,
        enable-configuration n h6,
        (enable-state n h6 off).0,
        (enable-state n h6 off).1,
      )
