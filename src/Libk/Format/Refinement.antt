-- ===== src/Libk/Format/Refinement.antt =====
-- vsprintf of src/libk/stdio.cpp writes what the pieces of its format stand for.
use ann_os.Base.{
  ℕ, suc, ◌+◌, ◌-◌, ◌≤◌, ◌<◌, ◌≡◌, refl, ap, sym, ◌∙◌, inl, inr, ◌⊎◌, List, [], ◌∷◌, ◌++◌, length,
  Memory, store8, Holds, arith, ok,
}
use ann_os.Libk.Format.{Writer, VaList, format_loop, vsprintf}
use ann_os.Libk.Format.Writing.{
  Writes, Apart, Text-same, Holds-same, Writes-++, Writes-char, length-++, Writes-last,
}
use ann_os.Libk.Format.Conversions.{Wrote}
use ann_os.Libk.Format.Pieces.{
  Piece, plain, number, string, source, sources, rendered, rendering, arity, Valid, Valids, cost,
}
use ann_os.Libk.Format.Rounds.{format_loop-end, format_loop-piece}

Apart-within :
    (a len dst n str k : ℕ) → dst ≤ str → str + k ≤ dst + n → Apart a len dst n → Apart a len str k
Apart-within a len dst n str k low high (inl before) = inl (omega arith)
Apart-within a len dst n str k low high (inr behind) = inr (omega arith)

Apart-later : (a k len l dst n : ℕ) → k + len ≤ l → Apart a l dst n → Apart (a + k) len dst n
Apart-later a k len l dst n shorter (inl before) = inl (omega arith)
Apart-later a k len l dst n shorter (inr behind) = inr (omega arith)

Holds-split :
    (m : Memory) (a : ℕ) (xs ys zs : List ℕ)
    → Holds m a ((xs ++ ys) ++ zs)
    → Holds m a xs × Holds m (a + length xs) (ys ++ zs)
Holds-split m a [] ys zs held = let start : a + 0 ≡ a = omega arith in (tt, rw start held)
Holds-split m a (x ∷ xs) ys zs (here, rest) =
    let (now, later) = Holds-split m (a + 1) xs ys zs rest in
    let place : a + suc (length xs) ≡ a + 1 + length xs = omega arith in
    ((here, now), rw place later)

module _ (m0 : Memory) (dst n : ℕ) (vl : VaList) where
  -- Outside the buffer the memory is as at the start.
  abbrev Same : Memory → Type 0
  Same m = (q : ℕ) → (q < dst) ⊎ (dst + n < q) → m q ≡ m0 q

  Same-Wrote :
      (w w' : Writer) (cs : List ℕ) (args : ℕ)
      → Wrote w cs args w'
      → dst ≤ w.str
      → w.str + length cs ≤ dst + n
      → Same w.mem
      → Same w'.mem
  Same-Wrote w w' cs args wrote low high same q (inl below) =
      wrote.written.before q (omega arith) ∙ same q (inl below)
  Same-Wrote w w' cs args wrote low high same q (inr above) =
      wrote.written.behind q (omega arith) ∙ same q (inr above)

  Same-Apart :
      (m : Memory) (a len q : ℕ) → Same m → Apart a len dst n → a ≤ q → q < a + len → m q ≡ m0 q
  Same-Apart m a len q same (inl low) l u = same q (inl (omega arith))
  Same-Apart m a len q same (inr high) l u = same q (inr (omega arith))

  Valid-here :
      (p : Piece) (w : Writer)
      → Same w.mem
      → dst ≤ w.str
      → w.str + length (rendered p) ≤ dst + n
      → Valid m0 dst n vl w.arg p
      → Valid w.mem w.str (length (rendered p)) vl w.arg p
  Valid-here (plain c) w same low high valid = valid
  Valid-here (number radix zeros width i text) w same low high valid = valid
  Valid-here (string width s text) w same low high (narrow, argument, word, short, held, apart) = (
    narrow,
    argument,
    word,
    short,
    Text-same m0 w.mem s text
        (λ q l u. Same-Apart w.mem s (length text + 1) q same apart l (omega arith)) held,
    Apart-within s (length text + 1) dst n w.str _ low high apart,
  )

  format_loop-rendering :
      (ps : List Piece) (fuel fmt : ℕ) (w : Writer)
      → Holds m0 fmt (sources ps ++ (0 ∷ []))
      → Apart fmt (length (sources ps) + 1) dst n
      → Valids m0 dst n vl w.arg ps
      → 0 < dst
      → dst ≤ w.str
      → w.str + length (rendering ps) ≤ dst + n
      → Same w.mem
      → cost ps ≤ fuel
      → (w' : Writer) × (format_loop fuel vl fmt w ≡ ok w')
        × Writes w.mem w.str (rendering ps) w'.mem
        × (w'.str ≡ w.str + length (rendering ps))
  format_loop-rendering [] fuel fmt w (end, _) apart valid some_place low high same enough =
      let here = Same-Apart w.mem fmt (0 + 1) fmt same apart (omega arith) (omega arith) in
      let rounds : fuel ≡ suc (fuel - 1) = omega arith in
      (
        w,
        rw rounds (format_loop-end vl (fuel - 1) fmt w (rw here end)),
        record { text = tt; before = λ q l. refl; behind = λ q l. refl },
        omega arith,
      )
  format_loop-rendering (p ∷ ps) fuel fmt w held apart (valid, valids) some_place low high same
        enough =
      let (now, later) = Holds-split m0 fmt (source p) (sources ps) (0 ∷ []) held in
      let formats = length-++ (source p) (sources ps) in
      let texts = length-++ (rendered p) (rendering ps) in
      let k = fuel - 4 in
      let rounds : fuel ≡ suc (suc (suc (suc k))) = omega arith in
      let (v, step, wrote) =
        format_loop-piece vl k fmt p w (omega arith)
          (Valid-here p w same low (omega (arith, texts)) valid)
          (Holds-same m0 w.mem fmt (source p)
            (λ q l u.
              Same-Apart w.mem fmt (length (sources (p ∷ ps)) + 1) q same apart l
                (omega (arith, formats)))
            now)
          (omega arith) in
      let (w', rest, written, end) =
        format_loop-rendering ps (suc (suc (suc k))) (fmt + length (source p)) v later
          (Apart-later fmt (length (source p)) (length (sources ps) + 1) _ dst n
            (omega (arith, formats)) apart)
          (rw (sym wrote.taken) at valids) some_place (omega (arith, wrote.place))
          (omega (arith, wrote.place, texts))
          (Same-Wrote w v (rendered p) (arity p) wrote low (omega (arith, texts)) same)
          (omega arith) in
      (
        w',
        ap (λ f. format_loop f vl fmt w) rounds ∙ (step ∙ rest),
        Writes-++ w.mem v.mem w'.mem w.str (rendered p) (rendering ps) wrote.written
            (rw wrote.place at written),
        omega (arith, end, wrote.place, texts),
      )

-- For a format of plain characters, `%d` and `%x` with zeros and a width of one digit, below 8 for
-- `%x`, and `%s` with such a width, where the arguments match, the numbers of `%d` are below 2 ^ 31
-- and those of `%x` below 2 ^ 28, so that they fit the local buffers, and the format and the texts lie outside the buffer, vsprintf returns in `cost` rounds, writes the text
-- of each piece, one after the other, with a terminator, and changes only the byte behind it
-- besides.
pub vsprintf-rendering :
    (m : Memory) (str fmt : ℕ) (vl : VaList) (ps : List Piece) (fuel : ℕ)
    → Holds m fmt (sources ps ++ (0 ∷ []))
    → Apart fmt (length (sources ps) + 1) str (length (rendering ps) + 1)
    → Valids m str (length (rendering ps) + 1) vl 0 ps
    → 0 < str
    → cost ps ≤ fuel
    → (m' : Memory) × (vsprintf fuel m str fmt vl ≡ ok m')
      × Writes m str (rendering ps ++ (0 ∷ [])) m'
unfolding vsprintf
vsprintf-rendering m str fmt vl ps fuel held apart valid some_place enough =
    let (w, done, written, end) =
      format_loop-rendering m str (length (rendering ps) + 1) vl ps fuel fmt
        (record { mem = m; str = str; arg = 0 }) held apart valid some_place (omega arith)
        (omega arith) (λ q outside. refl) enough in
    (
      store8 (store8 w.mem w.str 0) (w.str + 1) 0,
      rw done refl,
      Writes-last m (store8 w.mem w.str 0) str (rendering ps ++ (0 ∷ [])) (w.str + 1)
          (omega (arith, end, length-++ (rendering ps) (0 ∷ [])))
          (Writes-++ m w.mem (store8 w.mem w.str 0) str (rendering ps) (0 ∷ []) written
            (rw end (Writes-char w.mem (str + length (rendering ps)) 0 (omega arith)))),
    )
