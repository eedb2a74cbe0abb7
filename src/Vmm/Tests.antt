-- ===== src/Vmm/Tests.antt =====
-- The theorems on virtual memory at concrete inputs: a manager with one zone of sixteen pages.
use ann_os.Base.{
  ℕ, ◌+◌, ◌-◌, ◌*◌, ◌/◌, ◌%◌, ◌^◌, ◌≤◌, ◌<◌, ◌≡◌, ◌≢◌, refl, ◌==◌, ltb, if◌then◌else◌, bit_and,
  bit_or, bit_at, ok, arith, [], ◌∷◌,
}
use ann_os.Pmm.{Pmm, normal}
use ann_os.Pmm.Bitmap.{check_if_pages_free, check_loop, map_loop, map_pages_in_bitmap, set_bit}
use ann_os.Pmm.Allocation.{allocate_physical, allocate_from, allocate_in, skips, search, take_run}
use ann_os.Vmm.{
  Vmm, kernel, Frames, addr_end, dir_slot, map_physical_to_virtual, ensure_first, ensure_next,
  allocate_virtual_physical, map_entries, map_page_directory_index, unmap_virtual,
}
use ann_os.Vmm.Tables.{map_physical_to_virtual-entries}
use ann_os.Vmm.Unmapping.{cleared, unmap_virtual-cleared}
use ann_os.Vmm.Init.{window_of, vmm_init, vmm_init-window}
use ann_os.Vmm.Histories.{Grants, none_yet, granted, Below, Stacked, From, Grants-Stacked}
use ann_os.Vmm.NewTables.{
  AllPresent, map_physical_to_virtual-AllPresent, map_physical_to_virtual-new_table,
}

abbrev pool : Pmm
pool = record {
  mmap =
      record {
        start = 0x100000;
        first_free_addr = 0x100000;
        pagecount = 16;
        type = 1;
        alloc_bitmap = 0x2000;
      }
      ∷ [];
  mem = λ a. 0;
}

-- Every word of a frame is 7.
abbrev sevens : Frames
sevens p i = 7

-- Tables for the directory entries below `mapped`.
abbrev tables : ℕ → Vmm
tables mapped = record {
  window = λ t. if ltb t (dir_slot mapped) then 3 else 0;
  last_user = 0x1000;
  last_kernel = 0xc0400000;
  last_app_loader = 0x400000;
  pmm = pool;
}

all_present : AllPresent (tables 1024)
all_present d l = ground arith

-- Two pages, the second one in the next table.
across :
    (w : Vmm) × (map_physical_to_virtual sevens 1 0x5000 2 0xc03ff000 3 (tables 1024) ≡ ok w)
    × (w.pmm ≡ pool)
across =
    map_physical_to_virtual-AllPresent sevens 1 0x5000 2 0xc03ff000 3 (tables 1024) all_present
      (omega arith)

map_physical_to_virtual-entries_example :
    across.0.window (0xc03ff000 / 4096 + 1) ≡ bit_or ((0x5000 + 1 * 4096) % 2 ^ 32) (bit_and 3 0x7f)
map_physical_to_virtual-entries_example =
    map_physical_to_virtual-entries sevens 1 0x5000 2 0xc03ff000 3 1 (tables 1024) (omega arith)
      (omega arith) (omega arith) across.1

frame : (r : ℕ × Pmm) × (allocate_physical 1 pool 1 normal ≡ ok r)
unfolding allocate_physical allocate_from allocate_in skips search check_if_pages_free check_loop
    bit_at take_run
frame = (_, refl)

map_physical_to_virtual-new_table_example :
    ((w : Vmm) × (map_physical_to_virtual sevens 1 0x5000 1 (768 * 2 ^ 22) 3 (tables 768) ≡ ok w)
      × ((i : ℕ) → 1 ≤ i → i < 1024 → w.window (768 * 1024 + i) ≡ 0))
    × ((w : Vmm) × (map_physical_to_virtual sevens 1 0x5000 2 (768 * 2 ^ 22 - 4096) 3 (tables 768)
          ≡ ok w)
        × ((i : ℕ) → 1 ≤ i → i < 1024 → w.window (768 * 1024 + i) ≡ 7))
map_physical_to_virtual-new_table_example =
    map_physical_to_virtual-new_table sevens 1 0x5000 1 3 767 (tables 768) (omega arith)
      (omega arith) refl refl frame.1

unmap_virtual-cleared_example :
    (words : ℕ → ℕ) × (unmap_virtual 0xc03ff000 2 (tables 1024)
      ≡ ok (record (tables 1024) { window = words }))
    × ((t : ℕ) → words t ≡ cleared 2 0xc03ff (tables 1024).window t)
unmap_virtual-cleared_example =
    unmap_virtual-cleared 0xc03ff000 2 (tables 1024) (omega arith) (λ k l h. ground arith)

-- The page directory of the boot code at 0x101000, with its tables behind it.
abbrev boot_frames : Frames
boot_frames f i =
    if f == 0x101000
    then (if i == 0 then 0x102003 else if i == 768 then 0x103003 else 0)
    else i * 4096 + 3

vmm_init-window_example :
    (words : ℕ → ℕ) × (vmm_init boot_frames 0x101000 pool (tables 0)
      ≡ ok (record (tables 0) { window = words; pmm = pool }))
    × ((t : ℕ)
        → t < 1024
        → words t ≡ (if t == 0 then 0 else cleared 768 240 (boot_frames 0x102000) t))
    × ((d : ℕ) → d < 1023 → words (dir_slot d) ≡ boot_frames 0x101000 d)
    × (words (dir_slot 1023) ≡ 0x101003)
    × ((t : ℕ)
        → 0 < t / 1024
        → t / 1024 < 1023
        → boot_frames 0x101000 (t / 1024) - boot_frames 0x101000 (t / 1024) % 4096 ≢ 0x102000
        → boot_frames 0x101000 (t / 1024) - boot_frames 0x101000 (t / 1024) % 4096 ≢ 0x101000
        → words t ≡ window_of boot_frames 0x101000 t)
vmm_init-window_example =
    vmm_init-window boot_frames 0x101000 0x102000 refl refl refl (omega arith) pool (tables 0)

two_runs :
    (a : ℕ) × (p : ℕ) × (w : Vmm) × (b : ℕ) × (p' : ℕ) × (w' : Vmm) × (allocate_virtual_physical
        sevens 1 normal 2 3 kernel
        (tables 1024)
      ≡ ok (a, p, w))
    × (allocate_virtual_physical sevens 1 normal 1 3 kernel w ≡ ok (b, p', w'))
unfolding allocate_physical allocate_from allocate_in skips search check_if_pages_free check_loop
    bit_at take_run map_page_directory_index ensure_first ensure_next map_physical_to_virtual
    map_entries allocate_virtual_physical map_pages_in_bitmap map_loop set_bit
two_runs = (_, _, _, _, _, _, refl, refl)

two_runs-Grants :
    Grants sevens kernel (tables 1024) ((two_runs.3, 1) ∷ (two_runs.0, 2) ∷ []) two_runs.5
unfolding two_runs
two_runs-Grants =
    granted 1 normal 1 3 (granted 1 normal 2 3 none_yet (omega arith) (omega arith) two_runs.6)
      (omega arith) (omega arith) two_runs.7

Grants-Stacked_example :
    Stacked ((two_runs.3, 1) ∷ (two_runs.0, 2) ∷ [])
    × From 0xc0400000 ((two_runs.3, 1) ∷ (two_runs.0, 2) ∷ [])
    × Below two_runs.5.last_kernel ((two_runs.3, 1) ∷ (two_runs.0, 2) ∷ [])
    × Below (addr_end kernel) ((two_runs.3, 1) ∷ (two_runs.0, 2) ∷ [])
    × (0xc0400000 ≤ two_runs.5.last_kernel)
Grants-Stacked_example = Grants-Stacked sevens kernel (tables 1024) two_runs-Grants
