-- ===== src/Boot/Entries.antt =====
-- How many entries of the memory map src/main.cpp reads.
use ann_os.Base.{
  ℕ, zero, suc, ◌+◌, ◌-◌, ◌*◌, ◌/◌, ◌^◌, ◌<◌, ◌≡◌, refl, ap, ◌∙◌, some, List, length, get_elem?,
  arith, Memory, load32,
}
use ann_os.Pmm.{MemoryMap}
use ann_os.Boot.{MultibootBif, map_entry, entry_count, convert_entries, memory_map}

convert_entries-length :
    (m : Memory) (mb_mmap rounds i : ℕ) → length (convert_entries m mb_mmap rounds i) ≡ rounds
unfolding convert_entries
convert_entries-length m mb_mmap zero i = refl
convert_entries-length m mb_mmap (suc rounds) i =
    omega (arith, convert_entries-length m mb_mmap rounds (i + 1))

convert_entries-get_elem? :
    (m : Memory) (mb_mmap rounds i j : ℕ)
    → j < rounds
    → get_elem? (convert_entries m mb_mmap rounds i) j ≡ some (map_entry m mb_mmap (i + j))
unfolding convert_entries
convert_entries-get_elem? m mb_mmap zero i j inside = absurd (omega arith)
convert_entries-get_elem? m mb_mmap (suc rounds) i zero inside =
    let here : i + 0 ≡ i = omega arith in rw here refl
convert_entries-get_elem? m mb_mmap (suc rounds) i (suc j) inside =
    let next : i + suc j ≡ i + 1 + j = omega arith in
    rw next (convert_entries-get_elem? m mb_mmap rounds (i + 1) j (omega arith))

entry_count-map :
    (n : ℕ) → 0 < n → 24 * n < 2 ^ 32 → entry_count (24 * n) 20 ≡ some (n + (n - 1) / 5)
entry_count-map n some_entry small = ap some (omega arith)

-- For a map of n entries of 24 bytes, n at least 1, whose size field is 20 as multiboot has it,
-- the kernel reads n + (n - 1) / 5 entries, so more than there are from n = 6 on; the area number
-- i has the low 32 bits of the address and the length of entry i, and its type.
pub memory_map-entries :
    (m : Memory) (bif : MultibootBif) (n : ℕ)
    → 0 < n
    → 24 * n < 2 ^ 32
    → bif.mmap_length ≡ 24 * n
    → load32 m bif.mmap_addr ≡ 20
    → (areas : List MemoryMap) × (memory_map m bif ≡ some areas)
      × (length areas ≡ n + (n - 1) / 5)
      × ((i : ℕ) → i < length areas → get_elem? areas i ≡ some (map_entry m bif.mmap_addr i))
unfolding memory_map
memory_map-entries m bif n some_entry small long twenty =
    let count = n + (n - 1) / 5 in
    let counted : entry_count bif.mmap_length (load32 m bif.mmap_addr) ≡ some count =
      ap (λ l. entry_count l (load32 m bif.mmap_addr)) long
      ∙ (ap (entry_count (24 * n)) twenty ∙ entry_count-map n some_entry small) in
    let total = convert_entries-length m bif.mmap_addr count 0 in
    (
      convert_entries m bif.mmap_addr count 0,
      rw (counted, memory_map) refl,
      total,
      λ i inside.
          let first : 0 + i ≡ i = omega arith in
          convert_entries-get_elem? m bif.mmap_addr count 0 i (omega (arith, total))
          ∙ ap (λ j. some (map_entry m bif.mmap_addr j)) first,
    )
