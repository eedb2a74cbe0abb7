-- ===== src/Libk/Format/Numbers.antt =====
-- The text of a number in src/libk/stdio.cpp: what the padding adds, and which characters it has.
use ann_os.Base.{
  ℕ, zero, suc, ◌+◌, ◌-◌, ◌/◌, ◌%◌, ◌≤◌, ◌<◌, ◌≡◌, refl, ap, sym, ◌∙◌, true, Bool-cases, inl, inr,
  false, ltb, leb, Option, none, some, List, [], ◌∷◌, ◌++◌, length, arith,
}
use native.Mathlib.Nat.{mod-lt}
use ann_os.Libk.Text.{digit_char, digits, pad, strrev, inttostr}
use ann_os.Libk.Format.{number_text}
use ann_os.Libk.Format.Writing.{Chars}

++-assoc : (xs ys zs : List ℕ) → (xs ++ ys) ++ zs ≡ xs ++ (ys ++ zs)
++-assoc [] ys zs = refl
++-assoc (x ∷ xs) ys zs = ap (λ l. x ∷ l) (++-assoc xs ys zs)

++-nil : (xs : List ℕ) → xs ++ [] ≡ xs
++-nil [] = refl
++-nil (x ∷ xs) = ap (λ l. x ∷ l) (++-nil xs)

length-snoc : (xs : List ℕ) (y : ℕ) → length (xs ++ (y ∷ [])) ≡ length xs + 1
length-snoc [] y = omega arith
length-snoc (x ∷ xs) y = omega (arith, length-snoc xs y)

pub length-strrev : (xs : List ℕ) → length (strrev xs) ≡ length xs
unfolding strrev
length-strrev [] = refl
length-strrev (x ∷ xs) = length-snoc (strrev xs) x ∙ omega (arith, length-strrev xs)

strrev-++ : (xs ys : List ℕ) → strrev (xs ++ ys) ≡ strrev ys ++ strrev xs
unfolding strrev
strrev-++ [] ys = sym (++-nil (strrev ys))
strrev-++ (x ∷ xs) ys = rw (strrev-++ xs ys) (++-assoc (strrev ys) (strrev xs) (x ∷ []))

pad-snoc : (n c : ℕ) → pad n c ++ (c ∷ []) ≡ c ∷ pad n c
unfolding pad
pad-snoc zero c = refl
pad-snoc (suc n) c = ap (λ l. c ∷ l) (pad-snoc n c)

strrev-pad : (n c : ℕ) → strrev (pad n c) ≡ pad n c
unfolding pad strrev
strrev-pad zero c = refl
strrev-pad (suc n) c = rw (strrev-pad n c) (pad-snoc n c)

Chars-++ : (xs ys : List ℕ) → Chars xs → Chars ys → Chars (xs ++ ys)
Chars-++ [] ys here later = later
Chars-++ (x ∷ xs) ys (small, rest) later = (small, Chars-++ xs ys rest later)

Chars-strrev : (xs : List ℕ) → Chars xs → Chars (strrev xs)
unfolding strrev
Chars-strrev [] small = tt
Chars-strrev (x ∷ xs) (here, rest) = Chars-++ (strrev xs) (x ∷ []) (Chars-strrev xs rest) (here, tt)

Chars-pad : (n c : ℕ) → c < 256 → Chars (pad n c)
unfolding pad
Chars-pad zero c small = tt
Chars-pad (suc n) c small = (small, Chars-pad n c small)

digit_char-small : (d : ℕ) → d < 36 → digit_char d < 256
digit_char-small d small = ground arith

abbrev AllChars : Option (List ℕ) → Type 0
AllChars none = Unit
AllChars (some ds) = Chars ds

AllChars-cons :
    (c : ℕ) (o : Option (List ℕ))
    → c < 256
    → AllChars o
    → AllChars (elim o [ none ↦ none | some ds ↦ some (c ∷ ds) ])
AllChars-cons c none small later = tt
AllChars-cons c (some ds) small later = (small, later)

digits-AllChars : (rounds num base : ℕ) → 0 < base → base ≤ 36 → AllChars (digits rounds num base)
unfolding digits
digits-AllChars zero num base some_base few = tt
digits-AllChars (suc rounds) num base some_base few = elim (Bool-cases (ltb num base)) [
  | inl last ↦ rw last (digit_char-small num (ground arith), tt)
  | inr more ↦
      let below = mod-lt num {m = base} some_base in
      rw more (
        AllChars-cons (digit_char (num % base)) (digits rounds (num / base) base)
          (digit_char-small (num % base) (omega (arith, below)))
          (digits-AllChars rounds (num / base) base some_base few))
]

-- What `_inttostr` makes of the digits, the lowest first.
abbrev layout : ℕ → ℕ → Option (List ℕ) → Option (List ℕ)
layout padding padchar o = elim o [
  | none ↦ none
  | some ds ↦ some (strrev (ds ++ pad (padding - length ds) padchar))
]

strrev-fill : (n c : ℕ) (ds : List ℕ) → strrev (ds ++ pad n c) ≡ pad n c ++ strrev ds
strrev-fill n c ds = strrev-++ ds (pad n c) ∙ ap (λ l. l ++ strrev ds) (strrev-pad n c)

pub strrev-plain : (c : ℕ) (ds : List ℕ) → strrev (ds ++ pad (0 - length ds) c) ≡ strrev ds
unfolding pad
strrev-plain c ds =
    let nothing : 0 - length ds ≡ 0 = omega arith in rw nothing (ap strrev (++-nil ds))

layout-pad :
    (padding padchar : ℕ) (o : Option (List ℕ)) (text : List ℕ)
    → padchar < 256
    → AllChars o
    → layout 0 b' ' o ≡ some text
    → (layout padding padchar o ≡ some (pad (padding - length text) padchar ++ text))
      × Chars (pad (padding - length text) padchar ++ text)
layout-pad padding padchar none text small chars e = absurd (cc)
layout-pad padding padchar (some ds) text small chars e =
    let plain : strrev (ds ++ pad (0 - length ds) b' ') ≡ text = cc in
    let shown : strrev ds ≡ text = sym (strrev-plain b' ' ds) ∙ plain in
    let long : length ds ≡ length text = sym (length-strrev ds) ∙ ap length shown in
    rw (sym long, sym shown)
      (
        ap some (strrev-fill (padding - length ds) padchar ds),
        Chars-++ (pad (padding - length ds) padchar) (strrev ds)
            (Chars-pad (padding - length ds) padchar small) (Chars-strrev ds chars),
      )

-- The text without padding is filled up to the width on the left.
pub number_text-pad :
    (num base width padchar : ℕ) (text : List ℕ)
    → 0 < base
    → base ≤ 36
    → padchar < 256
    → width < 64
    → inttostr num base 0 b' ' ≡ some text
    → (number_text num base width padchar ≡ some (pad (width - length text) padchar ++ text))
      × Chars (pad (width - length text) padchar ++ text)
unfolding inttostr pad
number_text-pad num base zero padchar text some_base few small narrow e =
    let nothing : 0 - length text ≡ 0 = omega arith in
    let (same, chars) =
      layout-pad 0 b' ' (digits 63 num base) text (omega arith)
        (digits-AllChars 63 num base some_base few) e in
    rw nothing (e, rw nothing at chars)
number_text-pad num base (suc width) padchar text some_base few small narrow e =
    let (same, chars) =
      layout-pad (suc width) padchar (digits 63 num base) text small
        (digits-AllChars 63 num base some_base few) e in
    let padded : ltb 0 (suc width) ≡ true = ground arith in
    let room : leb 64 (suc width) ≡ false = ground arith in (rw (padded, room) same, chars)
