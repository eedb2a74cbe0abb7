-- ===== src/Smbios/Walk.antt =====
-- `Initialize` of src/arch/x86/SMBIOS.cpp.
use ann_os.Base.{
  ℕ, zero, suc, ◌+◌, ◌/◌, ltb, if◌then◌else◌, Option, none, some, List, [], ◌∷◌, Memory, Outcome,
  ok, running, ◌>>=◌,
}
use ann_os.Libk.Format.{strlen}
use ann_os.Vmm.{Vmm, Frames, kernel, vmm_page_size, map_physical_address}
use ann_os.Smbios.{smbios_entry, str_header, detect, get_smbios_string}
use ann_os.Smbios.Tables.{Parsed, parse}

-- The loop over the strings behind a structure, from index `max_idx` on.
unfoldable pub strings_loop : ℕ → Memory → ℕ → ℕ → ℕ → ℕ → Outcome ℕ
strings_loop zero m e hdr max_idx strlength = running
strings_loop (suc fuel) m e hdr max_idx strlength = do
  smstr ← get_smbios_string m e hdr max_idx
  elim smstr [
    | none ↦ ok strlength
    | some a ↦
        strlen (suc fuel) m a >>= λ n. strings_loop fuel m e hdr (max_idx + 1) (strlength + (n + 1))
  ]

-- Where the next structure starts.
unfoldable pub next_struct : ℕ → Memory → ℕ → ℕ → Outcome ℕ
next_struct fuel m e hdr = do
  strlength ← strings_loop fuel m e hdr 1 0
  ok (
      hdr
      + ((str_header m hdr).length + (if ltb 0 strlength then strlength + 1 else strlength + 2)))

-- The loop over the structures: what they hold, in order.
unfoldable pub structs_loop : ℕ → ℕ → Memory → ℕ → ℕ → Outcome (List Parsed)
structs_loop fuel zero m e smbios_ptr = ok []
structs_loop fuel (suc rounds) m e smbios_ptr = do
  p ← parse m e smbios_ptr
  next ← next_struct fuel m e smbios_ptr
  ps ← structs_loop fuel rounds m e next
  ok (p ∷ ps)

-- `Initialize`, with the entry address stored so far, if there is one. What the kernel reads at an
-- address depends on the page tables: `view` is the memory under a virtual memory manager.
unfoldable pub initialize_smbios :
    ℕ → Frames → (Vmm → Memory) → ℕ → ℕ → Option ℕ → Vmm → Outcome (List Parsed × Vmm)
initialize_smbios fuel frames view entry_magic interm_magic stored v =
    let found : Option ℕ = elim stored [
      | none ↦ detect entry_magic interm_magic (view v)
      | some e ↦ some e
    ] in
    elim found [
      | none ↦ ok ([], v)
      | some e ↦
          let entry = smbios_entry (view v) e in
          do
            (smbios_ptr, w) ←
                if ltb 0xf0000 entry.smbios_struct_addr
                then map_physical_address frames fuel entry.smbios_struct_addr
                    (entry.smbios_struct_len / vmm_page_size + 2) 0x3 kernel v
                else ok (entry.smbios_struct_addr, v)
            ps ←
                structs_loop fuel (smbios_entry (view w) e).smbios_struct_count (view w) e
                  smbios_ptr
            ok (ps, w)
    ]
