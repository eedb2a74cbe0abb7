-- ===== src/Libk/Format/Rounds.antt =====
-- The rounds of the loop of vsprintf in src/libk/stdio.cpp.
use ann_os.Base.{
  ℕ, suc, ◌+◌, ◌-◌, ◌≤◌, ◌<◌, ◌≡◌, ◌≢◌, refl, ◌∙◌, Bool, false, inl, inr, ◌==◌, ◌∷◌, length, load8,
  Holds, arith, ok, ◌>>=◌,
}
use ann_os.Libk.Format.{Writer, VaList, is_digit, directive, convert, put_char, format_loop}
use ann_os.Libk.Format.Writing.{Apart, blanks, Writes-char, length-++}
use ann_os.Libk.Format.Specifiers.{directive-specifier}
use ann_os.Libk.Format.Conversions.{Wrote, convert-number, convert-string}
use ann_os.Libk.Format.Pieces.{
  Radix, decimal, hexadecimal, letter, fill, specifier, Piece, plain, number, string, source,
  rendered, arity, Valid, width_bound,
}

Apart-shorter : (a len str n k : ℕ) → n ≤ k → Apart a len str k → Apart a len str n
Apart-shorter a len str n k less (inl low) = inl low
Apart-shorter a len str n k less (inr high) = inr (omega arith)

width_bound-digit : (radix : Radix) (width : ℕ) → width < width_bound radix → width < 10
width_bound-digit decimal width narrow = narrow
width_bound-digit hexadecimal width narrow = omega arith

letter-digit : (radix : Radix) → is_digit (letter radix) ≡ false
letter-digit decimal = refl
letter-digit hexadecimal = refl

module _ (vl : VaList) where
  pub format_loop-end :
      (fuel fmt : ℕ) (w : Writer) → load8 w.mem fmt ≡ 0 → format_loop (suc fuel) vl fmt w ≡ ok w
  unfolding format_loop
  format_loop-end fuel fmt w end = rw end refl

  format_loop-plain :
      (fuel fmt c : ℕ) (w : Writer)
      → load8 w.mem fmt ≡ c
      → 0 < c
      → c ≢ b'%'
      → format_loop (suc fuel) vl fmt w ≡ format_loop fuel vl (fmt + 1) (put_char c w)
  unfolding format_loop
  format_loop-plain fuel fmt c w here alive other =
      let a : (c == 0) ≡ false = ground arith in
      let b : (c == b'%') ≡ false = ground arith in rw (here, a, b) refl

  format_loop-percent :
      (fuel fmt : ℕ) (w : Writer)
      → load8 w.mem fmt ≡ b'%'
      → format_loop (suc fuel) vl fmt w
        ≡ (directive fuel vl (fmt + 1) w >>= λ (next, v). format_loop fuel vl next v)
  unfolding format_loop
  format_loop-percent fuel fmt w here = rw here refl

  -- The step of the loop for a directive that converts.
  pub format_loop-directive :
      (fuel fmt : ℕ) (zeros : Bool) (width : ℕ) (c : ℕ) (w w' : Writer)
      → width < 10
      → Holds w.mem fmt (b'%' ∷ specifier zeros width c)
      → is_digit c ≡ false
      → convert (suc (suc (suc fuel))) vl width (fill zeros) c w ≡ ok w'
      → format_loop (suc (suc (suc (suc fuel)))) vl fmt w
        ≡ format_loop (suc (suc (suc fuel))) vl (fmt + suc (length (specifier zeros width c))) w'
  format_loop-directive fuel fmt zeros width c w w' narrow (percent, held) other converted =
      let step : format_loop (suc (suc (suc (suc fuel)))) vl fmt w ≡ (
          directive (suc (suc (suc fuel))) vl (fmt + 1) w >>= λ (next, v).
          format_loop (suc (suc (suc fuel))) vl next v) =
        format_loop-percent (suc (suc (suc fuel))) fmt w percent in
      let read = directive-specifier fuel vl (fmt + 1) w zeros width c narrow other held in
      let place : fmt + 1 + length (specifier zeros width c)
          ≡ fmt + suc (length (specifier zeros width c)) =
        omega arith in
      step ∙ rw (read, converted, place) refl

  -- A round for a piece that stands in the memory.
  pub format_loop-piece :
      (fuel fmt : ℕ) (p : Piece) (w : Writer)
      → 0 < w.str
      → Valid w.mem w.str (length (rendered p)) vl w.arg p
      → Holds w.mem fmt (source p)
      → length (rendered p) ≤ fuel
      → (w' : Writer) × (format_loop (suc (suc (suc (suc fuel)))) vl fmt w
          ≡ format_loop (suc (suc (suc fuel))) vl (fmt + length (source p)) w')
        × Wrote w (rendered p) (arity p) w'
  format_loop-piece fuel fmt (plain c) w some_place (alive, small, other) (here, _) enough = (
    put_char c w,
    format_loop-plain (suc (suc (suc fuel))) fmt c w here alive other,
    record { written = Writes-char w.mem w.str c small; place = refl; taken = omega arith },
  )
  format_loop-piece fuel fmt (number radix zeros width i text) w some_place
        (narrow, argument, small, shown) held enough =
      let (w', converted, wrote) =
        convert-number (suc (suc fuel)) vl radix zeros width i text w some_place argument small
          narrow shown in
      (
        w',
        format_loop-directive fuel fmt zeros width (letter radix) w w'
            (width_bound-digit radix width narrow) held (letter-digit radix) converted,
        wrote,
      )
  format_loop-piece fuel fmt (string width s text) w some_place
        (narrow, argument, word, short, held, apart) here enough =
      let long = length-++ text (blanks (width - length text)) in
      let (w', converted, wrote) =
        convert-string (suc (suc (suc fuel))) vl width s text w some_place narrow argument word
          short held
          (Apart-shorter s (length text + 1) w.str (length text) _ (omega (arith, long)) apart)
          (omega (arith, long)) in
      (w', format_loop-directive fuel fmt false width b's' w w' narrow here refl converted, wrote)
