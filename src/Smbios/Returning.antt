-- ===== src/Smbios/Returning.antt =====
-- The loop of `GetSMBiosString` of src/arch/x86/SMBIOS.cpp ends.
use ann_os.Base.{
  ℕ, zero, suc, ◌+◌, ◌-◌, ◌≤◌, ◌≡◌, refl, Bool, true, false, Bool-cases, inl, inr, not, ◌&&◌, leb,
  ◌==◌, if◌then◌else◌, Option, none, some, Memory, load8, arith, Outcome, ok,
}
use ann_os.Smbios.{smbios_entry, str_header, is_unprintable, string_loop, get_smbios_string}

-- The loop has not run out of rounds.
abbrev pub Returned : Outcome (Option ℕ) → Type 0
Returned o = (r : Option ℕ) × (o ≡ ok r)

Returned-if :
    (b : Bool) {x y : Outcome (Option ℕ)} → Returned x → Returned y → Returned (if b then x else y)
Returned-if true done rest = done
Returned-if false done rest = rest

module _ (m : Memory) (limit len start idx : ℕ) where
  -- A round returns when the next one does, and each round goes on by one or two bytes.
  string_loop-round :
      (fuel j off : ℕ)
      → Returned (string_loop fuel m limit len start idx (j + 1) (off + 1 + 1))
      → Returned (string_loop fuel m limit len start idx j (off + 1))
      → Returned (string_loop (suc fuel) m limit len start idx j off)
  unfolding string_loop
  string_loop-round fuel j off at_end at_char =
      let rest = string_loop fuel m limit len start idx in
      elim (Bool-cases (load8 m (start + (off + 1)) == 0)) [
        | inl ended ↦ rw ended (
            Returned-if (leb limit (len + off)) (none, refl)
              (Returned-if (idx == j) (some (start + off), refl)
                (Returned-if
                  ((load8 m (start + (off + 1) + 1) == 0)
                    && not (load8 m (start + (off + 1) + 2) == 0))
                  (none, refl) at_end)))
        | inr alive ↦ rw alive (
            Returned-if (leb limit (len + off)) (none, refl)
              (Returned-if (idx == j) (some (start + off), refl)
                (Returned-if (is_unprintable (load8 m (start + (off + 1)))) (none, refl) at_char)))
      ]

  string_loop-over :
      (fuel j off : ℕ)
      → limit ≤ len + off
      → Returned (string_loop (suc fuel) m limit len start idx j off)
  unfolding string_loop
  string_loop-over fuel j off over =
      let outside : leb limit (len + off) ≡ true = ground arith in (none, rw outside refl)

  string_loop_total :
      (fuel j off : ℕ)
      → limit ≤ len + off + fuel
      → Returned (string_loop (suc fuel) m limit len start idx j off)
  string_loop_total zero j off short = string_loop-over zero j off (omega arith)
  string_loop_total (suc fuel) j off short =
      string_loop-round (suc fuel) j off
        (string_loop_total fuel (j + 1) (off + 1 + 1) (omega arith))
        (string_loop_total fuel j (off + 1) (omega arith))

-- `GetSMBiosString` returns for every memory, structure and index.
pub get_smbios_string_total :
    (m : Memory) (e hdr idx : ℕ) → Returned (get_smbios_string m e hdr idx)
unfolding get_smbios_string
get_smbios_string_total m e hdr idx =
    let len = (str_header m hdr).length in
    let limit = (smbios_entry m e).smbios_struct_len in
    Returned-if ((load8 m (hdr + len) == 0) && (load8 m (hdr + len + 1) == 0)) (none, refl)
      (string_loop_total m limit len (hdr + len) idx (limit - len) 1 0 (omega arith))
