-- ===== src/Libk/Format/Conversions.antt =====
-- What each conversion of vsprintf in src/libk/stdio.cpp writes.
use ann_os.Base.{
  ℕ, suc, ◌+◌, ◌-◌, ◌%◌, ◌^◌, ◌<◌, ◌≡◌, refl, Bool, true, false, Bool-cases, inl, inr, ltb, leb,
  ◌&&◌, some, List, [], ◌++◌, length, Memory, load8, store8, arith, sub32, ok,
}
use ann_os.Libk.Text.{pad, inttostr}
use ann_os.Libk.Format.{
  Writer, VaList, chars, number_text, extended, put_number, put_spaces, put_string, with_arg,
  convert, append_text,
}
use ann_os.Libk.Format.Writing.{
  Text, Chars, Writes, Apart, Text-same, Writes-same, Apart-≢, length-++, Writes-++, Writes-last,
  Writes-end, append_text-Writes, strcat_text-append_text, strcat-append_text, blanks,
  length-blanks, spaces_loop-Writes, strlen-Text, Text-Chars,
}
use ann_os.Libk.Format.Numbers.{number_text-pad}
use ann_os.Libk.Format.Buffers.{num_size-width_iff}
use ann_os.Libk.Format.Pieces.{
  Radix, decimal, hexadecimal, base_of, letter, bound, width_bound, fill,
}

-- A step of the writer that writes `cs` and takes `args` arguments.
pub record Wrote (w : Writer) (cs : List ℕ) (args : ℕ) (w' : Writer) : Type 0 where
  pub written : Writes w.mem w.str cs w'.mem
  pub place : w'.str ≡ w.str + length cs
  pub taken : w'.arg ≡ w.arg + args

-- A terminator at the start is overwritten.
Writes-over_end :
    (m m' : Memory) (str : ℕ) (cs : List ℕ) → Writes (store8 m str 0) str cs m' → Writes m str cs m'
Writes-over_end m m' str cs written =
    let start : str + 0 ≡ str = omega arith in
    Writes-++ m (store8 m str 0) m' str [] cs (Writes-end m str) (rw start written)

ended : (m : Memory) (str : ℕ) → load8 (store8 m str 0) str ≡ 0
ended m str = ground arith

put_number-Wrote :
    (size fuel : ℕ) (w : Writer) (text : List ℕ)
    → 0 < w.str
    → Chars text
    → length text < size
    → (w' : Writer) × (put_number size (suc fuel) (some text) (with_arg w) ≡ ok w')
      × Wrote w text 1 w'
unfolding put_number
put_number-Wrote size fuel w text some_place small fits =
    let room : leb size (length text) ≡ false = ground arith in
    let m = store8 w.mem w.str 0 in
    let (written, last) = append_text-Writes m w.str text small in
    (
      record (with_arg w) {
        mem = (append_text m w.str text).0;
        str = (append_text m w.str text).1 + 1;
      },
      rw (room, strcat_text-append_text fuel m w.str text (ended w.mem w.str)) refl,
      record {
        written = Writes-over_end w.mem _ w.str text written;
        place = omega (arith, last);
        taken = refl;
      },
    )

fill-small : (zeros : Bool) → fill zeros < 256
fill-small true = omega arith
fill-small false = omega arith

pub convert-number :
    (fuel : ℕ) (vl : VaList) (radix : Radix) (zeros : Bool) (width i : ℕ) (text : List ℕ)
    (w : Writer)
    → 0 < w.str
    → vl w.arg ≡ i
    → i < bound radix
    → width < width_bound radix
    → inttostr i (base_of radix) 0 b' ' ≡ some text
    → (w' : Writer) × (convert (suc fuel) vl width (fill zeros) (letter radix) w ≡ ok w')
      × Wrote w (pad (width - length text) (fill zeros) ++ text) 1 w'
unfolding convert
convert-number fuel vl decimal zeros width i text w some_place argument small narrow shown =
    let (same, chars) =
      number_text-pad i 10 width (fill zeros) text (omega arith) (omega arith) (fill-small zeros)
        (omega arith) shown in
    let word : extended (vl w.arg % 2 ^ 32) ≡ i = ground arith in
    let signed : extended i ≡ i = ground arith in
    let taken : number_text (extended i) 10 width (fill zeros)
        ≡ some (pad (width - length text) (fill zeros) ++ text) =
      rw signed same in
    let fits =
      (num_size-width_iff decimal i width (fill zeros) _ (omega arith) taken).1
        (small, omega arith) in
    rw (word, same)
      (put_number-Wrote 16 fuel w (pad (width - length text) (fill zeros) ++ text) some_place chars
        (omega (arith, fits)))
convert-number fuel vl hexadecimal zeros width i text w some_place argument small narrow shown =
    let (same, chars) =
      number_text-pad i 16 width (fill zeros) text (omega arith) (omega arith) (fill-small zeros)
        (omega arith) shown in
    let word : vl w.arg % 2 ^ 32 ≡ i = ground arith in
    let fits =
      (num_size-width_iff hexadecimal i width (fill zeros) _ (omega arith) same).1
        (small, narrow) in
    rw (word, same)
      (put_number-Wrote 8 fuel w (pad (width - length text) (fill zeros) ++ text) some_place chars
        (omega (arith, fits)))

put_spaces-Writes :
    (width len : ℕ) (m : Memory) (str : ℕ)
    → width < 10
    → len < 2 ^ 31
    → Writes m (str + 1) (blanks (width - len)) ((put_spaces (sub32 width len) m str).0)
      × ((put_spaces (sub32 width len) m str).1 ≡ str + (width - len))
unfolding put_spaces
put_spaces-Writes width len m str narrow short = elim (Bool-cases (ltb len width)) [
  | inl wider ↦
      let truepad : sub32 width len ≡ width - len = ground arith in
      let positive : (ltb 0 (width - len) && ltb (width - len) (2 ^ 31)) ≡ true = ground arith in
      let (written, last) = spaces_loop-Writes (width - len) m str in
      rw (truepad, positive)
        (
          Writes-last m _ (str + 1) (blanks (width - len)) _
              (omega (arith, last, length-blanks (width - len))) written,
          last,
        )
  | inr full ↦
      let nothing : width - len ≡ 0 = ground arith in
      let negative : (ltb 0 (sub32 width len) && ltb (sub32 width len) (2 ^ 31)) ≡ false =
        ground arith in
      rw (negative, nothing)
        (record { text = tt; before = λ q l. refl; behind = λ q l. refl }, omega arith)
]

pub convert-string :
    (fuel : ℕ) (vl : VaList) (width s : ℕ) (text : List ℕ) (w : Writer)
    → 0 < w.str
    → width < 10
    → vl w.arg ≡ s
    → s < 2 ^ 32
    → length text < 2 ^ 31
    → Text w.mem s text
    → Apart s (length text + 1) w.str (length text)
    → length text < fuel
    → (w' : Writer) × (convert fuel vl width b' ' b's' w ≡ ok w')
      × Wrote w (text ++ blanks (width - length text)) 1 w'
unfolding convert put_string
convert-string fuel vl width s text w some_place narrow argument small short held apart enough =
    let m = store8 w.mem w.str 0 in
    let word : vl w.arg % 2 ^ 32 ≡ s = ground arith in
    let n = length text in
    let start : Text m s text =
      Text-same w.mem m s text
        (λ q l u.
          let other =
            Apart-≢ s (n + 1) w.str n q w.str apart l (omega arith) (omega arith) (omega arith) in
          ground arith)
        held in
    let (written, last) = append_text-Writes m w.str text (Text-Chars m s text start) in
    let m' = (append_text m w.str text).0 in
    let after : Text m' s text =
      Text-same m m' s text
        (λ q l u. Writes-same m m' w.str text written q s (n + 1) apart l (omega arith)) start in
    let (spaces, end) = put_spaces-Writes width n m' (append_text m w.str text).1 narrow short in
    let next : (append_text m w.str text).1 + 1 ≡ w.str + n = omega (arith, last) in
    let both = Writes-++ m m' _ w.str text (blanks (width - n)) written (rw next at spaces) in
    (
      record (with_arg w) {
        mem = (put_spaces (sub32 width n) m' (append_text m w.str text).1).0;
        str = (put_spaces (sub32 width n) m' (append_text m w.str text).1).1 + 1;
      },
      rw
          (
            word,
            strcat-append_text fuel m w.str s text (ended w.mem w.str) start apart enough,
            strlen-Text fuel m' s text after enough,
          )
          refl,
      record {
        written = Writes-over_end w.mem _ w.str _ both;
        place =
            omega
              (arith, last, end, length-++ text (blanks (width - n)), length-blanks (width - n));
        taken = refl;
      },
    )
