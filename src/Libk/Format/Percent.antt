-- ===== src/Libk/Format/Percent.antt =====
-- What vsprintf of src/libk/stdio.cpp makes of `%%`.
use ann_os.Base.{
  ℕ, suc, ◌+◌, ◌≡◌, refl, ◌∙◌, false, inl, inr, [], ◌∷◌, Memory, load8, store8, Holds, arith, ok,
}
use ann_os.Libk.Format.{Writer, VaList, convert, format_loop, vsprintf}
use ann_os.Libk.Format.Writing.{Apart}
use ann_os.Libk.Format.Rounds.{format_loop-end, format_loop-directive}

percent_literal :
    (fuel : ℕ) (vl : VaList) (w : Writer)
    → convert fuel vl 0 b' ' b'%' w ≡ ok (record w { mem = store8 w.mem w.str b'%' })
unfolding convert
percent_literal fuel vl w = refl

-- On the format `%%`, outside the two bytes at the destination, vsprintf returns and the text is
-- empty: the terminator overwrites the character.
pub vsprintf-percent :
    (m : Memory) (str fmt : ℕ) (vl : VaList) (fuel : ℕ)
    → Holds m fmt (b'%' ∷ b'%' ∷ 0 ∷ [])
    → Apart fmt 3 str 0
    → (m' : Memory) × (vsprintf (suc (suc (suc (suc fuel)))) m str fmt vl ≡ ok m')
      × (load8 m' str ≡ 0)
unfolding vsprintf
vsprintf-percent m str fmt vl fuel (first, (second, (end, _))) apart =
    let w : Writer = record { mem = m; str = str; arg = 0 } in
    let w' : Writer = record w { mem = store8 m str b'%' } in
    let step =
      format_loop-directive vl fuel fmt false 0 b'%' w w' (omega arith) (first, (second, tt)) refl
        (percent_literal (suc (suc (suc fuel))) vl w) in
    let nul : load8 (store8 m str b'%') (fmt + 2) ≡ 0 = elim apart [
      | inl before ↦ ground arith
      | inr behind ↦ ground arith
    ] in
    let done : format_loop (suc (suc (suc (suc fuel)))) vl fmt w ≡ ok w' =
      step ∙ format_loop-end vl (suc (suc fuel)) (fmt + 2) w' nul in
    (store8 (store8 (store8 m str b'%') str 0) (str + 1) 0, rw done refl, ground arith)
