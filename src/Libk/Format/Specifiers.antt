-- ===== src/Libk/Format/Specifiers.antt =====
-- What vsprintf of src/libk/stdio.cpp reads between a `%` and the character of the conversion.
use ann_os.Base.{
  ℕ, zero, suc, ◌+◌, ◌<◌, ◌≡◌, refl, ◌∙◌, Bool, true, false, ltb, ◌==◌, if◌then◌else◌, List, [],
  ◌∷◌, ◌++◌, length, Memory, load8, Holds, arith, ok, ◌>>=◌,
}
use ann_os.Libk.Text.{atoi, strtoint, strtoint_loop, strrev, ipow}
use ann_os.Libk.Format.{Writer, VaList, is_digit, chars, padding_loop, convert, directive}
use ann_os.Libk.Format.Pieces.{flag_text, fill, width_text, specifier}

-- The three rounds at most of the loop over the specifiers.
padding_loop-stop :
    (fuel : ℕ) (m : Memory) (fmt n padchar : ℕ)
    → is_digit (load8 m (fmt + n)) ≡ false
    → padding_loop (suc fuel) m fmt n padchar ≡ ok (fmt, n, padchar)
unfolding padding_loop
padding_loop-stop fuel m fmt n padchar other = rw other refl

padding_loop-digit :
    (fuel : ℕ) (m : Memory) (fmt padchar w : ℕ)
    → w < 9
    → load8 m (fmt + 0) ≡ b'0' + suc w
    → padding_loop (suc fuel) m fmt 0 padchar ≡ padding_loop fuel m fmt 1 padchar
unfolding padding_loop
padding_loop-digit fuel m fmt padchar w small here =
    let digit : is_digit (load8 m (fmt + 0)) ≡ true = ground arith in
    let nonzero : (load8 m (fmt + 0) == b'0') ≡ false = ground arith in rw (digit, nonzero) refl

padding_loop-zero :
    (fuel : ℕ) (m : Memory) (fmt padchar : ℕ)
    → load8 m (fmt + 0) ≡ b'0'
    → padding_loop (suc fuel) m fmt 0 padchar ≡ padding_loop fuel m (fmt + 1) 0 b'0'
unfolding padding_loop
padding_loop-zero fuel m fmt padchar here = rw here refl

padding_loop-width :
    (fuel : ℕ) (m : Memory) (fmt width padchar c : ℕ)
    → width < 10
    → is_digit c ≡ false
    → Holds m fmt (width_text width ++ (c ∷ []))
    → padding_loop (suc (suc fuel)) m fmt 0 padchar ≡ ok (fmt, length (width_text width), padchar)
padding_loop-width fuel m fmt zero padchar c small other (here, _) =
    let start : fmt + 0 ≡ fmt = omega arith in
    padding_loop-stop (suc fuel) m fmt 0 padchar (rw (start, here) other)
padding_loop-width fuel m fmt (suc w) padchar c small other (here, (next, _)) =
    let start : fmt + 0 ≡ fmt = omega arith in
    padding_loop-digit (suc fuel) m fmt padchar w (omega arith) (rw start here)
    ∙ padding_loop-stop fuel m fmt 1 padchar (rw next other)

padding_loop-specifier :
    (fuel : ℕ) (m : Memory) (fmt : ℕ) (zeros : Bool) (width c : ℕ)
    → width < 10
    → is_digit c ≡ false
    → Holds m fmt (specifier zeros width c)
    → padding_loop (suc (suc (suc fuel))) m fmt 0 b' '
      ≡ ok (fmt + length (flag_text zeros), length (width_text width), fill zeros)
padding_loop-specifier fuel m fmt true width c small other (zero_char, held) =
    let start : fmt + 0 ≡ fmt = omega arith in
    padding_loop-zero (suc (suc fuel)) m fmt b' ' (rw start zero_char)
    ∙ padding_loop-width fuel m (fmt + 1) width b'0' c small other held
padding_loop-specifier fuel m fmt false width c small other held =
    let start : fmt + 0 ≡ fmt = omega arith in
    rw start (padding_loop-width (suc fuel) m fmt width b' ' c small other held)

atoi-digit : (w : ℕ) → w < 10 → atoi ((b'0' + w) ∷ []) ≡ ok w
unfolding atoi strtoint strtoint_loop strrev ipow
atoi-digit w small = ground arith

-- What a directive reads before it converts.
padding_of :
    (m : Memory) (a width c : ℕ)
    → width < 10
    → Holds m a (width_text width ++ (c ∷ []))
    → ((if ltb 0 (length (width_text width))
          then atoi (chars m a (length (width_text width)))
          else ok 0)
        ≡ ok width)
      × (load8 m (a + length (width_text width)) ≡ c)
padding_of m a zero c small (here, _) = let start : a + 0 ≡ a = omega arith in (refl, rw start here)
padding_of m a (suc w) c small (here, (next, _)) = (rw here (atoi-digit (suc w) small), next)

flagged :
    (m : Memory) (fmt : ℕ) (zeros : Bool) (cs : List ℕ)
    → Holds m fmt (flag_text zeros ++ cs)
    → Holds m (fmt + length (flag_text zeros)) cs
flagged m fmt true cs (here, rest) = rest
flagged m fmt false cs held = let start : fmt + 0 ≡ fmt = omega arith in rw start held

length-specifier :
    (zeros : Bool) (width c : ℕ)
    → length (specifier zeros width c) ≡ length (flag_text zeros) + length (width_text width) + 1
length-specifier true zero c = refl
length-specifier true (suc w) c = refl
length-specifier false zero c = refl
length-specifier false (suc w) c = refl

pub directive-specifier :
    (fuel : ℕ) (vl : VaList) (fmt : ℕ) (w : Writer) (zeros : Bool) (width c : ℕ)
    → width < 10
    → is_digit c ≡ false
    → Holds w.mem fmt (specifier zeros width c)
    → directive (suc (suc (suc fuel))) vl fmt w ≡ (
        convert (suc (suc (suc fuel))) vl width (fill zeros) c w >>= λ w'.
        ok (fmt + length (specifier zeros width c), w'))
unfolding directive
directive-specifier fuel vl fmt w zeros width c small other held =
    let (padding, conversion) =
      padding_of w.mem (fmt + length (flag_text zeros)) width c small
        (flagged w.mem fmt zeros (width_text width ++ (c ∷ [])) held) in
    let place : fmt + length (flag_text zeros) + length (width_text width) + 1
        ≡ fmt + length (specifier zeros width c) =
      omega (arith, length-specifier zeros width c) in
    rw
      (
        padding_loop-specifier fuel w.mem fmt zeros width c small other held,
        padding,
        conversion,
        place,
      )
      refl
