-- ===== src/Libk/Format/Buffers.antt =====
-- How much of the local buffers `num` of vsprintf in src/libk/stdio.cpp a number takes: 8
-- characters for `%x` and 16 for `%d`, with the terminator.
use ann_os.Base.{
  ℕ, zero, suc, ◌+◌, ◌-◌, ◌*◌, ◌/◌, ◌^◌, ◌≤◌, ◌<◌, ◌≡◌, refl, ap, sym, ◌∙◌, ◌↔◌, true, false,
  Bool-cases, inl, inr, ltb, leb, ◌≢◌, Option, none, some, List, ◌∷◌, ◌++◌, length, arith,
}
use native.Mathlib.Nat.{div-lt_iff_lt-mul, le-div_iff_mul-le, pow-suc, pow-zero, one-le-pow}
use ann_os.Libk.Text.{pad, digits, strrev, inttostr}
use ann_os.Libk.Format.{number_text, extended}
use ann_os.Libk.Format.Pieces.{Radix, decimal, hexadecimal, base_of}
use ann_os.Libk.Format.Writing.{length-++}
use ann_os.Libk.Format.Numbers.{length-strrev, strrev-plain}

-- What is said of a number of digits, where there is one.
abbrev Count : (ℕ → Type 0) → Option (List ℕ) → Type 0
Count P none = Unit
Count P (some ds) = P (length ds)

Count-cons :
    (P Q : ℕ → Type 0) (c : ℕ) (o : Option (List ℕ))
    → ((n : ℕ) → P n → Q (suc n))
    → Count P o
    → Count Q (elim o [ none ↦ none | some ds ↦ some (c ∷ ds) ])
Count-cons P Q c none next later = tt
Count-cons P Q c (some ds) next later = next (length ds) later

Count-any : (o : Option (List ℕ)) → Count (λ n. Unit) o
Count-any none = tt
Count-any (some ds) = tt

module _ (base : ℕ) (two : 2 ≤ base) where
  pow-one : base ^ 1 ≡ base
  pow-one = pow-suc base 0 ∙ ap (λ x. x * base) (pow-zero base) ∙ omega arith

  digits-AtMost :
      (rounds num k : ℕ) → num < base ^ suc k → Count (λ n. n ≤ suc k) (digits rounds num base)
  unfolding digits
  digits-AtMost zero num k high = tt
  digits-AtMost (suc rounds) num zero high =
      let below = rw pow-one at high in
      let last : ltb num base ≡ true = ground (arith, below) in rw last (omega arith)
  digits-AtMost (suc rounds) num (suc k) high =
      let under = (div-lt_iff_lt-mul (omega (arith, two))).1 (rw (pow-suc base (suc k)) at high) in
      elim (Bool-cases (ltb num base)) [
        | inl last ↦ rw last (omega arith)
        | inr more ↦ rw more (
            Count-cons (λ n. n ≤ suc k) (λ n. n ≤ suc (suc k)) _ (digits rounds (num / base) base)
              (λ n l. omega arith) (digits-AtMost rounds (num / base) k under))
      ]

  digits-Above : (rounds num k : ℕ) → base ^ k ≤ num → Count (λ n. k < n) (digits rounds num base)
  unfolding digits
  digits-Above zero num k low = tt
  digits-Above (suc rounds) num zero low = elim (Bool-cases (ltb num base)) [
    | inl last ↦ rw last (omega arith)
    | inr more ↦ rw more (
        Count-cons (λ n. Unit) (λ n. 0 < n) _ (digits rounds (num / base) base) (λ n l. omega arith)
          (Count-any (digits rounds (num / base) base)))
  ]
  digits-Above (suc rounds) num (suc k) low =
      let over = (le-div_iff_mul-le (omega (arith, two))).1 (rw (pow-suc base k) at low) in
      let least =
        (le-div_iff_mul-le {k = base} {x = 1} {y = num} (omega (arith, two))).0
          (omega (arith, over, one-le-pow k base (omega (arith, two)))) in
      let more : ltb num base ≡ false = ground (arith, least) in
      rw more (
        Count-cons (λ n. k < n) (λ n. suc k < n) _ (digits rounds (num / base) base)
          (λ n l. omega arith) (digits-Above rounds (num / base) k over))

-- The text of the digits has as many characters.
length-inttostr :
    (P : ℕ → Type 0) (num base : ℕ) (text : List ℕ)
    → Count P (digits 63 num base)
    → inttostr num base 0 b' ' ≡ some text
    → P (length text)
unfolding inttostr
length-inttostr P num base text counted shown = go (digits 63 num base) counted shown
  where
    go :
        (o : Option (List ℕ))
        → Count P o
        → elim o [ none ↦ none | some ds ↦ some (strrev (ds ++ pad (0 - length ds) b' ')) ]
          ≡ some text
        → P (length text)
    go none counted' e = absurd (cc)
    go (some ds) counted' e =
        let plain : strrev (ds ++ pad (0 - length ds) b' ') ≡ text = cc in
        let long : length ds ≡ length text =
          sym (length-strrev ds) ∙ ap length (sym (strrev-plain b' ' ds) ∙ plain) in
        rw long at counted'

-- `char num[16]` and `char num[8]`.
abbrev pub num_size : Radix → ℕ
num_size decimal = 16
num_size hexadecimal = 8

-- The number that `_inttostr` takes for the argument `i`.
abbrev pub converted : Radix → ℕ → ℕ
converted decimal i = extended i
converted hexadecimal i = i

abbrev pub fitting : Radix → ℕ
fitting decimal = 2 ^ 31
fitting hexadecimal = 2 ^ 28

-- The text of a 32-bit argument of `%d` or `%x` without a width fits the local buffer, with its
-- terminator, exactly when the argument is below 2 ^ 31 or 2 ^ 28: a negative number and a
-- hexadecimal one of eight digits are written past the end.
num_size_iff :
    (radix : Radix) (i : ℕ) (text : List ℕ)
    → i < 2 ^ 32
    → number_text (converted radix i) (base_of radix) 0 b' ' ≡ some text
    → (length text + 1 ≤ num_size radix) ↔ (i < fitting radix)
num_size_iff decimal i text word shown = (
  (λ fits. elim (Bool-cases (ltb i (2 ^ 31))) [
    | inl small ↦ ground arith
    | inr large ↦
        let same : extended i ≡ i + (2 ^ 64 - 2 ^ 32) = ground arith in
        let many =
          length-inttostr (λ n. 19 < n) (extended i) 10 text
            (digits-Above 10 (omega arith) 63 (extended i) 19 (rw same (ground arith))) shown in
        absurd (omega arith)
  ]),
  λ small.
      let same : extended i ≡ i = ground arith in
      let few =
        length-inttostr (λ n. n ≤ 10) (extended i) 10 text
          (rw same (digits-AtMost 10 (omega arith) 63 i 9 (omega arith))) shown in
      omega arith,
)
num_size_iff hexadecimal i text word shown = (
  (λ fits. elim (Bool-cases (ltb i (2 ^ 28))) [
    | inl small ↦ ground arith
    | inr large ↦
        let many =
          length-inttostr (λ n. 7 < n) i 16 text
            (digits-Above 16 (omega arith) 63 i 7 (ground arith)) shown in
        absurd (omega arith)
  ]),
  λ small.
      let few =
        length-inttostr (λ n. n ≤ 7) i 16 text (digits-AtMost 16 (omega arith) 63 i 6 (omega arith))
          shown in
      omega arith,
)

length-pad : (n c : ℕ) → length (pad n c) ≡ n
unfolding pad
length-pad zero c = refl
length-pad (suc n) c = omega (arith, length-pad n c)

-- Padding makes a text as long as the width, if it is shorter.
number_text-padding :
    (num base width padchar : ℕ) (text : List ℕ)
    → number_text num base width padchar ≡ some text
    → (bare : List ℕ) × (number_text num base 0 b' ' ≡ some bare)
      × (length text ≡ length bare + (width - length bare))
unfolding inttostr
number_text-padding num base width padchar text shown = elim (Bool-cases (ltb 0 width)) [
  | inl padded ↦ elim (Bool-cases (leb 64 width)) [
    | inl wide ↦ absurd (none-ne-some text (rw (padded, wide) at shown))
    | inr room ↦ go (digits 63 num base) width padchar (rw (padded, room) at shown)
  ]
  | inr none_there ↦
      let (bare, e, long) = go (digits 63 num base) 0 b' ' (rw none_there at shown) in
      (bare, e, ground arith)
]
  where
    none-ne-some : (t : List ℕ) → none ≢ some t
    none-ne-some t e = absurd (cc)

    go :
        (o : Option (List ℕ)) (w c : ℕ)
        → elim o [ none ↦ none | some ds ↦ some (strrev (ds ++ pad (w - length ds) c)) ] ≡ some text
        → (bare : List ℕ) × (elim o [
          | none ↦ none
          | some ds ↦ some (strrev (ds ++ pad (0 - length ds) b' '))
        ]
            ≡ some bare)
          × (length text ≡ length bare + (w - length bare))
    go none w c e = absurd (cc)
    go (some ds) w c e =
        let plain : strrev (ds ++ pad (w - length ds) c) ≡ text = cc in
        let long : length ds + (w - length ds) ≡ length text =
          ap (λ k. length ds + k) (sym (length-pad (w - length ds) c))
          ∙ sym (length-++ ds (pad (w - length ds) c))
          ∙ sym (length-strrev (ds ++ pad (w - length ds) c))
          ∙ ap length plain in
        let none_left : 0 - length ds ≡ 0 = omega arith in
        let short =
          length-strrev (ds ++ pad (0 - length ds) b' ')
          ∙ length-++ ds (pad (0 - length ds) b' ') in
        let zero_pad = length-pad (0 - length ds) b' ' in
        (strrev (ds ++ pad (0 - length ds) b' '), refl, omega (arith, long, short, zero_pad))

-- The text of a 32-bit argument of `%d` or `%x` with a width, 0 if there is none, fits the local
-- buffer, with its terminator, exactly when the argument is below 2 ^ 31 or 2 ^ 28 and the width
-- is below the size of the buffer, 16 or 8. So `%08x` is always written past the end.
pub num_size-width_iff :
    (radix : Radix) (i width padchar : ℕ) (text : List ℕ)
    → i < 2 ^ 32
    → number_text (converted radix i) (base_of radix) width padchar ≡ some text
    → (length text + 1 ≤ num_size radix) ↔ ((i < fitting radix) × (width < num_size radix))
num_size-width_iff radix i width padchar text word shown =
    let (bare, e, long) =
      number_text-padding (converted radix i) (base_of radix) width padchar text shown in
    let (only, enough) = num_size_iff radix i bare word e in
    (
      (λ fits. (only (omega arith), omega arith)),
      (λ (small, narrow). let l = enough small in omega arith),
    )
