-- ===== src/Smbios/Lookup.antt =====
-- Which string `GetSMBiosString` of src/arch/x86/SMBIOS.cpp returns.
use ann_os.Base.{
  ℕ, zero, suc, ◌+◌, ◌-◌, ◌≤◌, ◌<◌, ◌≡◌, ◌≢◌, refl, ap, sym, ◌∙◌, true, false, not, ◌&&◌, leb, ◌==◌,
  if◌then◌else◌, Option, none, some, List, [], ◌∷◌, length, Memory, load8, arith, ℕ_discrete, ok,
}
use ann_os.Smbios.{smbios_entry, str_header, is_unprintable, string_loop, get_smbios_string}

-- The rest of a string: printable characters, and the terminator.
abbrev pub Rest : Memory → ℕ → List ℕ → Type 0
Rest m a [] = load8 m a ≡ 0
Rest m a (c ∷ cs) = (load8 m a ≡ c) × (31 < c) × (c < 127) × Rest m (a + 1) cs

-- Strings one after the other, none of them empty, and a terminator behind the last one, which is
-- followed by another byte than 0.
abbrev pub Strings : Memory → ℕ → List (List ℕ) → Type 0
Strings m a [] = (load8 m a ≡ 0) × (0 < load8 m (a + 1))
Strings m a ([] ∷ ss) = ⊥
Strings m a ((c ∷ cs) ∷ ss) = Rest m a (c ∷ cs) × Strings m (a + (length cs + 2)) ss

-- The bytes of strings with their terminators.
abbrev pub total : List (List ℕ) → ℕ
total [] = 0
total (s ∷ ss) = length s + 1 + total ss

-- The address of the string number `idx`, where the first one has number `first`.
abbrev pub nth_string : ℕ → List (List ℕ) → ℕ → ℕ → Option ℕ
nth_string a [] first idx = none
nth_string a (s ∷ ss) first idx =
    if idx == first then some a else nth_string (a + (length s + 1)) ss (first + 1) idx

abbrev more : List ℕ → ℕ → ℕ
more [] fuel = suc fuel
more (c ∷ cs) fuel = suc (more cs fuel)

more-length : (cs : List ℕ) (fuel : ℕ) → more cs fuel ≡ length cs + 1 + fuel
more-length [] fuel = omega arith
more-length (c ∷ cs) fuel = omega (arith, more-length cs fuel)

module _ (m : Memory) (limit len start idx : ℕ) where
  -- The rounds of the loop: at the string asked for, at a character, and at a terminator.
  string_loop-found :
      (fuel off : ℕ)
      → len + off < limit
      → string_loop (suc fuel) m limit len start idx idx off ≡ ok (some (start + off))
  unfolding string_loop
  string_loop-found fuel off inside = ground arith

  string_loop-char :
      (fuel j off : ℕ)
      → idx ≢ j
      → len + off < limit
      → 31 < load8 m (start + (off + 1))
      → load8 m (start + (off + 1)) < 127
      → string_loop (suc fuel) m limit len start idx j off
        ≡ string_loop fuel m limit len start idx j (off + 1)
  unfolding string_loop
  string_loop-char fuel j off ne inside low high =
      let within : leb limit (len + off) ≡ false = ground arith in
      let other : (idx == j) ≡ false = ground arith in
      let alive : (load8 m (start + (off + 1)) == 0) ≡ false = ground arith in
      let printable : is_unprintable (load8 m (start + (off + 1))) ≡ false = ground arith in
      rw (within, other, alive, printable) refl

  string_loop-end :
      (fuel j off : ℕ)
      → idx ≢ j
      → len + off < limit
      → load8 m (start + (off + 1)) ≡ 0
      → string_loop (suc fuel) m limit len start idx j off ≡ (
          if (load8 m (start + (off + 1) + 1) == 0) && not (load8 m (start + (off + 1) + 2) == 0)
          then ok none
          else string_loop fuel m limit len start idx (j + 1) (off + 1 + 1))
  unfolding string_loop
  string_loop-end fuel j off ne inside end =
      let within : leb limit (len + off) ≡ false = ground arith in
      let other : (idx == j) ≡ false = ground arith in
      let ended : (load8 m (start + (off + 1)) == 0) ≡ true = ground arith in
      rw (within, other, ended) refl

  -- From inside a string to its terminator.
  string_loop-Rest :
      (cs : List ℕ) (fuel j off : ℕ)
      → idx ≢ j
      → len + off + length cs < limit
      → Rest m (start + (off + 1)) cs
      → string_loop (more cs fuel) m limit len start idx j off ≡ (
          let ch = start + (off + length cs + 1) in
          if (load8 m (ch + 1) == 0) && not (load8 m (ch + 2) == 0)
          then ok none
          else string_loop fuel m limit len start idx (j + 1) (off + length cs + 1 + 1))
  string_loop-Rest [] fuel j off ne inside end =
      let e : off + 0 ≡ off = omega arith in rw e (string_loop-end fuel j off ne (omega arith) end)
  string_loop-Rest (c ∷ cs) fuel j off ne inside (here, low, high, rest) =
      let assoc : start + (off + 1) + 1 ≡ start + (off + 1 + 1) = omega arith in
      let next : off + suc (length cs) ≡ off + 1 + length cs = omega arith in
      rw next (
        string_loop-char (more cs fuel) j off ne (omega arith) (omega arith) (omega arith)
        ∙ string_loop-Rest cs fuel j (off + 1) ne (omega arith) (rw assoc at rest))

  -- From the start of another string than the one asked for to its terminator.
  string_loop-next :
      (c : ℕ) (cs : List ℕ) (fuel j off : ℕ)
      → idx ≢ j
      → Rest m (start + off) (c ∷ cs)
      → len + off + length cs < limit
      → length cs < fuel
      → string_loop fuel m limit len start idx j off ≡ (
          let ch = start + (off + length cs + 1) in
          if (load8 m (ch + 1) == 0) && not (load8 m (ch + 2) == 0)
          then ok none
          else string_loop
              (fuel - (length cs + 1))
              m
              limit
              len
              start
              idx
              (j + 1)
              (off + length cs + 1 + 1))
  string_loop-next c cs fuel j off ne text inside enough =
      let rounds : fuel ≡ more cs (fuel - (length cs + 1)) =
        omega (arith, more-length cs (fuel - (length cs + 1))) in
      let assoc : start + off + 1 ≡ start + (off + 1) = omega arith in
      ap (λ f. string_loop f m limit len start idx j off) rounds
      ∙ string_loop-Rest cs (fuel - (length cs + 1)) j off ne inside (rw assoc at (text.3))

  string_loop-Strings :
      (c : ℕ) (cs : List ℕ) (ss : List (List ℕ)) (fuel j off : ℕ)
      → Strings m (start + off) ((c ∷ cs) ∷ ss)
      → len + off + total ((c ∷ cs) ∷ ss) ≤ limit
      → total ((c ∷ cs) ∷ ss) < fuel
      → string_loop fuel m limit len start idx j off
        ≡ ok (nth_string (start + off) ((c ∷ cs) ∷ ss) j idx)
  string_loop-Strings c cs ss zero j off text inside enough = absurd (omega arith)
  string_loop-Strings c cs [] (suc fuel) j off (text, last) inside enough =
      elim (ℕ_discrete idx j) [
        | yes found ↦
            let same : (idx == j) ≡ true = ground arith in
            rw (same, sym found) (string_loop-found fuel off (omega arith))
        | no other ↦
            let later : (idx == j) ≡ false = ground arith in
            let end : start + off + (length cs + 2) ≡ start + (off + length cs + 1) + 1 =
              omega arith in
            let behind : start + off + (length cs + 2) + 1 ≡ start + (off + length cs + 1) + 2 =
              omega arith in
            let (nul, other_byte) = rw (behind, end) at last in
            rw later (
              string_loop-next c cs (suc fuel) j off other text (omega arith) (omega arith)
              ∙ ground arith)
      ]
  string_loop-Strings c cs ([] ∷ ss) (suc fuel) j off (text, never) inside enough = absurd never
  string_loop-Strings c cs ((d ∷ ds) ∷ ss) (suc fuel) j off (text, texts) inside enough =
      elim (ℕ_discrete idx j) [
        | yes found ↦
            let same : (idx == j) ≡ true = ground arith in
            rw (same, sym found) (string_loop-found fuel off (omega arith))
        | no other ↦
            let later : (idx == j) ≡ false = ground arith in
            let next : start + off + (length cs + 2) ≡ start + (off + length cs + 1 + 1) =
              omega arith in
            let ih =
              string_loop-Strings d ds ss (suc fuel - (length cs + 1)) (j + 1)
                (off + length cs + 1 + 1) (rw next at texts) (omega arith) (omega arith) in
            let place : start + off + (suc (length cs) + 1) ≡ start + (off + length cs + 1 + 1) =
              omega arith in
            let first : start + (off + length cs + 1) + 1 ≡ start + off + (length cs + 2) =
              omega arith in
            let alive : (load8 m (start + off + (length cs + 2)) == 0) ≡ false = ground arith in
            rw (later, place)
              (string_loop-next c cs (suc fuel) j off other text (omega arith) (omega arith)
                ∙ rw (first, alive) ih)
      ]

first_char :
    (m : Memory) (a c : ℕ) (cs : List ℕ) (ss : List (List ℕ))
    → Strings m a ((c ∷ cs) ∷ ss)
    → (load8 m a == 0) ≡ false
first_char m a c cs ss ((here, low, high, rest), behind) = ground arith

-- Where the strings behind a structure, at least one, lie within the length of all tables and a
-- byte other than 0 follows their end, `GetSMBiosString` returns the address of the string with
-- the number asked for, and null for 0 and for a number above that of the last string.
pub get_smbios_string-nth_string :
    (m : Memory) (e hdr idx c : ℕ) (cs : List ℕ) (ss : List (List ℕ))
    → Strings m (hdr + (str_header m hdr).length) ((c ∷ cs) ∷ ss)
    → (str_header m hdr).length + total ((c ∷ cs) ∷ ss) ≤ (smbios_entry m e).smbios_struct_len
    → get_smbios_string m e hdr idx
      ≡ ok (nth_string (hdr + (str_header m hdr).length) ((c ∷ cs) ∷ ss) 1 idx)
unfolding get_smbios_string
get_smbios_string-nth_string m e hdr idx c cs ss text inside =
    let len = (str_header m hdr).length in
    let limit = (smbios_entry m e).smbios_struct_len in
    let start = hdr + len in
    let full : (load8 m start == 0) ≡ false = first_char m start c cs ss text in
    let begin : start + 0 ≡ start = omega arith in
    let found =
      string_loop-Strings m limit len start idx c cs ss (suc (limit - len)) 1 0 (rw begin text)
        (omega (arith, inside)) (omega (arith, inside)) in
    rw full (rw begin at found)
