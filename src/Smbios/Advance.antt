-- ===== src/Smbios/Advance.antt =====
-- Where `Initialize` of src/arch/x86/SMBIOS.cpp finds the next structure.
use ann_os.Base.{
  ℕ, zero, suc, ◌+◌, ◌≤◌, ◌<◌, ◌≡◌, refl, ap, ◌∙◌, true, false, ltb, ◌==◌, if◌then◌else◌, Option,
  some, List, [], ◌∷◌, length, Memory, load8, arith, ok,
}
use ann_os.Libk.Format.{strlen}
use ann_os.Smbios.{smbios_entry, str_header, get_smbios_string}
use ann_os.Smbios.Walk.{strings_loop, next_struct}
use ann_os.Smbios.Lookup.{Rest, Strings, total, nth_string, get_smbios_string-nth_string}

strlen-Rest :
    (fuel : ℕ) (m : Memory) (a : ℕ) (cs : List ℕ)
    → Rest m a cs
    → length cs < fuel
    → strlen fuel m a ≡ ok (length cs)
unfolding strlen
strlen-Rest zero m a cs text enough = absurd (omega arith)
strlen-Rest (suc fuel) m a [] end enough =
    let nul : (load8 m a == 0) ≡ true = ground arith in rw nul refl
strlen-Rest (suc fuel) m a (c ∷ cs) (here, low, high, rest) enough =
    let alive : (load8 m a == 0) ≡ false = ground arith in
    rw (alive, strlen-Rest fuel m (a + 1) cs rest (omega arith)) (ap ok (omega arith))

nth_string-next :
    (a j idx : ℕ) (later : Option ℕ) → j + 1 ≤ idx → (if idx == j then some a else later) ≡ later
nth_string-next a j idx later above = ground arith

nth_string-here : (a j : ℕ) (later : Option ℕ) → (if j == j then some a else later) ≡ some a
nth_string-here a j later = ground arith

behind_strings :
    (hdr len n : ℕ)
    → 0 < n
    → hdr + (len + (if ltb 0 (0 + n) then 0 + n + 1 else 0 + n + 2)) ≡ hdr + len + (n + 1)
behind_strings hdr len n some_text = ground arith

module _ (m : Memory) (e hdr : ℕ) where
  -- The strings from number `j` on are `ss`, which start at `a`.
  abbrev Remaining : ℕ → ℕ → List (List ℕ) → Type 0
  Remaining a j ss =
      (idx : ℕ) → j ≤ idx → get_smbios_string m e hdr idx ≡ ok (nth_string a ss j idx)

  Remaining-next :
      (a j : ℕ) (s : List ℕ) (ss : List (List ℕ))
      → Remaining a j (s ∷ ss)
      → Remaining (a + (length s + 1)) (j + 1) ss
  Remaining-next a j s ss now idx later =
      now idx (omega arith)
      ∙ ap ok
          (nth_string-next a j idx (nth_string (a + (length s + 1)) ss (j + 1) idx) (omega arith))

  Remaining-here :
      (a j : ℕ) (s : List ℕ) (ss : List (List ℕ))
      → Remaining a j (s ∷ ss)
      → get_smbios_string m e hdr j ≡ ok (some a)
  Remaining-here a j s ss now =
      now j (omega arith)
      ∙ ap ok (nth_string-here a j (nth_string (a + (length s + 1)) ss (j + 1) j))

  strings_loop-total :
      (fuel a j acc : ℕ) (ss : List (List ℕ))
      → Strings m a ss
      → Remaining a j ss
      → total ss < fuel
      → strings_loop fuel m e hdr j acc ≡ ok (acc + total ss)
  unfolding strings_loop
  strings_loop-total zero a j acc ss text now enough = absurd (omega arith)
  strings_loop-total (suc fuel) a j acc [] text now enough =
      rw (now j (omega arith)) (ap ok (omega arith))
  strings_loop-total (suc fuel) a j acc ([] ∷ ss) never now enough = absurd never
  strings_loop-total (suc fuel) a j acc ((c ∷ cs) ∷ ss) (text, texts) now enough =
      let next : a + (length cs + 2) ≡ a + (suc (length cs) + 1) = omega arith in
      let ih =
        strings_loop-total fuel (a + (suc (length cs) + 1)) (j + 1) (acc + (suc (length cs) + 1)) ss
          (rw next at texts) (Remaining-next a j (c ∷ cs) ss now) (omega arith) in
      rw
        (Remaining-here a j (c ∷ cs) ss now, strlen-Rest (suc fuel) m a (c ∷ cs) text (omega arith))
        (ih ∙ ap ok (omega arith))

  -- Where the strings behind a structure, at least one, lie within the length of all tables and a
  -- byte other than 0 follows their end, `Initialize` goes on right behind their end.
  pub next_struct-total :
      (fuel c : ℕ) (cs : List ℕ) (ss : List (List ℕ))
      → Strings m (hdr + (str_header m hdr).length) ((c ∷ cs) ∷ ss)
      → (str_header m hdr).length + total ((c ∷ cs) ∷ ss) ≤ (smbios_entry m e).smbios_struct_len
      → total ((c ∷ cs) ∷ ss) < fuel
      → next_struct fuel m e hdr
        ≡ ok (hdr + (str_header m hdr).length + (total ((c ∷ cs) ∷ ss) + 1))
  unfolding next_struct
  next_struct-total fuel c cs ss text inside enough =
      let n = total ((c ∷ cs) ∷ ss) in
      let sum =
        strings_loop-total fuel (hdr + (str_header m hdr).length) 1 0 ((c ∷ cs) ∷ ss) text
          (λ idx l. get_smbios_string-nth_string m e hdr idx c cs ss text inside) enough in
      rw sum (ap ok (behind_strings hdr (str_header m hdr).length n (omega arith)))
