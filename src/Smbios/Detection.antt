-- ===== src/Smbios/Detection.antt =====
-- Which entry point `Detect` of src/arch/x86/SMBIOS.cpp finds.
use ann_os.Base.{
  ℕ, zero, suc, ◌+◌, ◌*◌, ◌%◌, ◌<◌, ◌≡◌, refl, ◌∙◌, ◌↔◌, inl, inr, true, false, Bool-cases, Option,
  none, some, List, [], ◌∷◌, length, codes, Holds, Memory, load8, arith, ℕ_discrete,
}
use ann_os.Libk.Mem.{memcmp}
use ann_os.Smbios.{
  smbios_entry, checksum_loop, check_if_checksum_valid, is_equal, smbios_start, is_entry_point,
  detect_loop, detect,
}

-- The sum of bytes.
abbrev pub sum_bytes : Memory → ℕ → ℕ → ℕ
sum_bytes m a zero = 0
sum_bytes m a (suc n) = load8 m a + sum_bytes m (a + 1) n

-- An entry point: the two anchors, and bytes whose sum is a multiple of 256.
pub record IsEntryPoint (m : Memory) (a : ℕ) : Type 0 where
  pub anchor : Holds m a (codes "_SM_")
  pub interm_anchor : Holds m (a + 0x10) (codes "_DMI_")
  pub sum : sum_bytes m a (smbios_entry m a).length % 256 ≡ 0

checksum_loop-sum_bytes :
    (m : Memory) (a n total : ℕ)
    → total < 256
    → checksum_loop m a n total ≡ (total + sum_bytes m a n) % 256
unfolding checksum_loop
checksum_loop-sum_bytes m a zero total small = omega arith
checksum_loop-sum_bytes m a (suc n) total small =
    checksum_loop-sum_bytes m (a + 1) n ((total + load8 m a) % 256) (omega arith) ∙ omega arith

memcmp-Holds :
    (m : Memory) (cs : List ℕ) (literal a : ℕ)
    → Holds m literal cs
    → (is_equal (memcmp m literal a (length cs)) ≡ true) ↔ Holds m a cs
unfolding memcmp
memcmp-Holds m [] literal a held = ((λ h. tt), (λ h. refl))
memcmp-Holds m (c ∷ cs) literal a (held, helds) =
    let (sound, complete) = memcmp-Holds m cs (literal + 1) (a + 1) helds in
    ((λ h. (ground arith, sound (ground arith))), (λ (h, hs). ground (arith, complete hs)))

-- The two literals of `Detect`.
pub record Literals (m : Memory) (entry_magic interm_magic : ℕ) : Type 0 where
  pub entry : Holds m entry_magic (codes "_SM_")
  pub interm : Holds m interm_magic (codes "_DMI_")

-- What `Detect` says when it finds an entry point, or none: `candidate k` is the address number
-- `k`.
abbrev pub candidate : ℕ → ℕ
candidate k = smbios_start + k * 0x10

abbrev pub NoneBefore : Memory → ℕ → Type 0
NoneBefore m n = (k : ℕ) → k < n → ¬ IsEntryPoint m (candidate k)

abbrev pub Detected : Memory → Option ℕ → Type 0
Detected m none = NoneBefore m 0x1000
Detected m (some a) = (n : ℕ) × (n < 0x1000) × (a ≡ candidate n) × IsEntryPoint m a × NoneBefore m n

module _ (entry_magic interm_magic : ℕ) (m : Memory)
    (lits : Literals m entry_magic interm_magic) where
  is_entry_point_iff :
      (a : ℕ) → (is_entry_point entry_magic interm_magic m a ≡ true) ↔ IsEntryPoint m a
  unfolding is_entry_point check_if_checksum_valid
  is_entry_point_iff a =
      let first = memcmp-Holds m (codes "_SM_") entry_magic a lits.entry in
      let second = memcmp-Holds m (codes "_DMI_") interm_magic (a + 0x10) lits.interm in
      let sum = checksum_loop-sum_bytes m a (smbios_entry m a).length 0 (omega arith) in
      (
        (λ h. record {
          anchor = first.0 (ground arith);
          interm_anchor = second.0 (ground arith);
          sum = ground arith;
        }),
        (λ h. ground (arith, first.1 h.anchor, second.1 h.interm_anchor, h.sum)),
      )

  detect_loop-first :
      (rounds n : ℕ)
      → NoneBefore m n
      → n + rounds ≡ 0x1000
      → Detected m (detect_loop entry_magic interm_magic m rounds (candidate n))
  unfolding detect_loop
  detect_loop-first zero n before e = λ k l. before k (omega arith)
  detect_loop-first (suc rounds) n before e =
      elim (Bool-cases (is_entry_point entry_magic interm_magic m (candidate n))) [
        | inl found ↦
            rw found (n, omega arith, refl, (is_entry_point_iff (candidate n)).0 found, before)
        | inr not_here ↦
            let step : candidate n + 0x10 ≡ candidate (n + 1) = omega arith in
            rw (not_here, step)
              (detect_loop-first rounds (n + 1) (before_next not_here) (omega arith))
      ]
    where
      before_next :
          is_entry_point entry_magic interm_magic m (candidate n) ≡ false → NoneBefore m (n + 1)
      before_next not_here k l = elim (ℕ_discrete k n) [
        | yes same ↦
            λ point. let here = (is_entry_point_iff (candidate n)).1 (rw same at point) in cc
        | no other ↦ before k (omega arith)
      ]

  -- Among the 16-byte boundaries from 0xc00f0000 to 0xc0100000, `Detect` finds the first one at
  -- which an entry point with both anchors and a right checksum stands, or none if there is no
  -- such one.
  pub detect-first : Detected m (detect entry_magic interm_magic m)
  unfolding detect
  detect-first = detect_loop-first 0x1000 0 (λ k l. absurd (omega arith)) refl
