-- ===== src/Vmm/NewTables.antt =====
-- Which entries a page table has that src/arch/x86/VMM.cpp has just allocated, and the calls that
-- need no new table.
use ann_os.Base.{
  ℕ, zero, suc, ◌+◌, ◌-◌, ◌*◌, ◌/◌, ◌%◌, ◌^◌, ◌≤◌, ◌<◌, ◌≡◌, refl, ◌∙◌, true, false, Bool-cases,
  inl, inr, leb, ◌==◌, bit_and, bit_or, add32, ok, arith,
}
use ann_os.Pmm.{Pmm, normal}
use ann_os.Pmm.Allocation.{allocate_physical}
use ann_os.Vmm.{
  Vmm, Frames, vmm_page_size, dir_slot, present, put_word, set_dir, clear_table,
  map_page_directory_index, ensure_first, ensure_next, map_entries, map_physical_to_virtual,
}

-- A run that ends before the last page of a table needs no other table, and keeps the entries
-- behind it.
map_entries-inside :
    (frames : Frames) (fuel n toffset phys flags : ℕ) (v : Vmm)
    → toffset % 1024 + n < 1024
    → (w : Vmm) × (map_entries frames fuel n toffset phys flags v ≡ ok w)
      × ((t : ℕ) → toffset + n ≤ t → w.window t ≡ v.window t)
unfolding map_entries
map_entries-inside frames fuel zero toffset phys flags v inside = (v, refl, λ t behind. refl)
map_entries-inside frames fuel (suc n) toffset phys flags v inside =
    let x = record v { window = put_word v.window toffset (bit_or phys (bit_and flags 0x7f)) } in
    let (w, e, kept) =
      map_entries-inside frames fuel n (toffset + 1) (add32 phys vmm_page_size) flags x
        (omega arith) in
    let within : (toffset % 1024 == 1023) ≡ false = ground arith in
    (w, rw within e, λ t behind. kept t (omega arith) ∙ ground arith)

module _ (frames : Frames) (fuel phys m flags d : ℕ) (v : Vmm) {p : ℕ} {pmm : Pmm} (low : d < 1022)
    (short : m < 1023) (missing : present (v.window (dir_slot (d + 1))) ≡ false)
    (frame : allocate_physical fuel v.pmm 1 normal ≡ ok (p, pmm)) where
  abbrev cleared_frame : Vmm
  cleared_frame = record v {
    window = clear_table (d + 1) (set_dir frames (d + 1) (bit_or p 3) v.window);
    pmm = pmm;
  }

  from_start :
      map_physical_to_virtual frames fuel phys m ((d + 1) * 2 ^ 22) flags v
      ≡ map_entries frames fuel m ((d + 1) * 1024 + 0) phys flags cleared_frame
  unfolding map_physical_to_virtual ensure_first map_page_directory_index
  from_start =
      let dir : (d + 1) * 2 ^ 22 / 2 ^ 22 ≡ d + 1 = omega arith in
      let table : (d + 1) * 2 ^ 22 / 2 ^ 12 % 1024 ≡ 0 = omega arith in
      let room : leb 1024 (d + 1) ≡ false = ground arith in
      rw (dir, table, missing, room, frame) refl

  -- A run of `m` pages from the start of the missing table on.
  run_from_start :
      (w : Vmm) × (map_physical_to_virtual frames fuel phys m ((d + 1) * 2 ^ 22) flags v ≡ ok w)
      × ((i : ℕ) → m ≤ i → i < 1024 → w.window ((d + 1) * 1024 + i) ≡ 0)
  unfolding clear_table
  run_from_start =
      let (w, e, kept) =
        map_entries-inside frames fuel m ((d + 1) * 1024 + 0) phys flags cleared_frame
          (omega arith) in
      (
        w,
        from_start ∙ e,
        (λ i behind inside. kept ((d + 1) * 1024 + i) (omega arith) ∙ ground arith),
      )

  -- The page tables with the last entry of the table before written.
  abbrev words : ℕ → ℕ
  words = put_word v.window (d * 1024 + 1023) (bit_or phys (bit_and flags 0x7f))

  abbrev stale_frame : Vmm
  stale_frame = record v { window = set_dir frames (d + 1) (bit_or p 3) words; pmm = pmm }

  from_before :
      present (v.window (dir_slot d)) ≡ true
      → map_physical_to_virtual frames fuel phys (suc m) ((d + 1) * 2 ^ 22 - 4096) flags v
        ≡ map_entries frames fuel m
            (d * 1024 + 1023 + 1)
            (add32 phys vmm_page_size)
            flags
            stale_frame
  unfolding map_physical_to_virtual ensure_first
  from_before there =
      let dir : ((d + 1) * 2 ^ 22 - 4096) / 2 ^ 22 ≡ d = omega arith in
      let table : ((d + 1) * 2 ^ 22 - 4096) / 2 ^ 12 % 1024 ≡ 1023 = omega arith in
      rw (dir, table, there) next_round
    where
      next_round :
          map_entries frames fuel (suc m) (d * 1024 + 1023) phys flags v
          ≡ map_entries frames fuel m
              (d * 1024 + 1023 + 1)
              (add32 phys vmm_page_size)
              flags
              stale_frame
      next_round =
          let room : leb 1024 (d + 1) ≡ false = ground arith in
          let last : ((d * 1024 + 1023) % 1024 == 1023) ≡ true = ground arith in
          let next : (d * 1024 + 1023) / 1024 + 1 ≡ d + 1 = omega arith in
          let absent : present (words (dir_slot (d + 1))) ≡ false = ground (arith, missing) in
          let table_made : ensure_next frames fuel (d + 1) (record v { window = words })
              ≡ ok stale_frame =
            unfold ensure_next map_page_directory_index in rw (absent, room, frame) refl in
          unfold map_entries in rw (last, next, table_made) refl

  -- A run of one page more that starts at the last page of the table before.
  run_from_before :
      present (v.window (dir_slot d)) ≡ true
      → (w : Vmm) × (map_physical_to_virtual frames fuel phys
            (suc m)
            ((d + 1) * 2 ^ 22 - 4096)
            flags
            v
          ≡ ok w)
        × ((i : ℕ)
            → m ≤ i
            → i < 1024
            → w.window ((d + 1) * 1024 + i) ≡ frames (bit_or p 3 - bit_or p 3 % 4096) i)
  unfolding set_dir
  run_from_before there =
      let (w, e, kept) =
        map_entries-inside frames fuel m (d * 1024 + 1023 + 1) (add32 phys vmm_page_size) flags
          stale_frame (omega arith) in
      (
        w,
        from_before there ∙ e,
        (λ i behind inside.
            let column : ((d + 1) * 1024 + i) % 1024 ≡ i = omega arith in
            let row : ((d + 1) * 1024 + i) / 1024 ≡ d + 1 = omega arith in
            kept ((d + 1) * 1024 + i) (omega arith) ∙ ground arith),
      )

-- Of two directory entries one behind the other, let the first be present and the second not, and
-- let a frame be free. A call of MapPhysicalToVirtual for fewer than 1023 pages from the start of
-- the second table on returns, and leaves the entries of that table behind its run 0. A call for
-- one page more, from the last page of the first table on, returns too, but leaves there the words
-- that the frame held before.
pub map_physical_to_virtual-new_table :
    (frames : Frames) (fuel phys m flags d : ℕ) (v : Vmm) {p : ℕ} {pmm : Pmm}
    → d < 1022
    → m < 1023
    → present (v.window (dir_slot d)) ≡ true
    → present (v.window (dir_slot (d + 1))) ≡ false
    → allocate_physical fuel v.pmm 1 normal ≡ ok (p, pmm)
    → ((w : Vmm) × (map_physical_to_virtual frames fuel phys m ((d + 1) * 2 ^ 22) flags v ≡ ok w)
        × ((i : ℕ) → m ≤ i → i < 1024 → w.window ((d + 1) * 1024 + i) ≡ 0))
      × ((w : Vmm) × (map_physical_to_virtual frames fuel phys
              (suc m)
              ((d + 1) * 2 ^ 22 - 4096)
              flags
              v
            ≡ ok w)
          × ((i : ℕ)
              → m ≤ i
              → i < 1024
              → w.window ((d + 1) * 1024 + i) ≡ frames (bit_or p 3 - bit_or p 3 % 4096) i))
map_physical_to_virtual-new_table frames fuel phys m flags d v low short there missing frame = (
  run_from_start frames fuel phys m flags d v low short missing frame,
  run_from_before frames fuel phys m flags d v low short missing frame there,
)

abbrev pub AllPresent : Vmm → Type 0
AllPresent v = (d : ℕ) → d < 1024 → present (v.window (dir_slot d)) ≡ true

map_entries-AllPresent :
    (frames : Frames) (fuel n toffset phys flags : ℕ) (v : Vmm)
    → AllPresent v
    → toffset + n ≤ 1023 * 1024
    → (w : Vmm) × (map_entries frames fuel n toffset phys flags v ≡ ok w) × (w.pmm ≡ v.pmm)
unfolding map_entries ensure_next
map_entries-AllPresent frames fuel zero toffset phys flags v all low = (v, refl, refl)
map_entries-AllPresent frames fuel (suc n) toffset phys flags v all low =
    let x = record v { window = put_word v.window toffset (bit_or phys (bit_and flags 0x7f)) } in
    let kept : AllPresent x = λ d l. ground (arith, all d l) in
    let there : present (x.window (dir_slot (toffset / 1024 + 1))) ≡ true =
      kept (toffset / 1024 + 1) (omega arith) in
    let (w, e, p) =
      map_entries-AllPresent frames fuel n (toffset + 1) (add32 phys vmm_page_size) flags x kept
        (omega arith) in
    elim (Bool-cases (toffset % 1024 == 1023)) [
      | inl last ↦ (w, rw (last, there) e, p)
      | inr inside ↦ (w, rw inside e, p)
    ]

-- Where every directory entry is present, `MapPhysicalToVirtual` returns for a run that ends below
-- the page tables at 0xffc00000, and takes no frame.
pub map_physical_to_virtual-AllPresent :
    (frames : Frames) (fuel phys n virt flags : ℕ) (v : Vmm)
    → AllPresent v
    → virt / 4096 + n ≤ 1023 * 1024
    → (w : Vmm) × (map_physical_to_virtual frames fuel phys n virt flags v ≡ ok w) × (w.pmm ≡ v.pmm)
unfolding map_physical_to_virtual ensure_first
map_physical_to_virtual-AllPresent frames fuel phys n virt flags v all low =
    let there : present (v.window (dir_slot (virt / 2 ^ 22))) ≡ true = all _ (omega arith) in
    let (w, e, p) =
      map_entries-AllPresent frames fuel n (virt / 2 ^ 22 * 1024 + virt / 2 ^ 12 % 1024) phys flags
        v all (omega arith) in
    (w, rw there e, p)
