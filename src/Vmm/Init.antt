-- ===== src/Vmm/Init.antt =====
-- `VMM::Init` of src/arch/x86/VMM.cpp, and what it leaves in the page tables.
-- `frames` is the physical memory before: the page directory is written there, through the identity
-- mapping that the boot code has made, until the directory maps itself.
use ann_os.Base.{
  ℕ, ◌+◌, ◌-◌, ◌*◌, ◌/◌, ◌%◌, ◌≤◌, ◌<◌, ◌≡◌, ◌≢◌, ◌∙◌, true, false, ◌&&◌, ◌==◌, if◌then◌else◌,
  bit_or, bit_or-3, Outcome, ok, arith,
}
use ann_os.Pmm.{Pmm}
use ann_os.Vmm.{Vmm, Frames, dir_slot, present, unmap_virtual, vmm_page_size}
use ann_os.Vmm.Unmapping.{cleared, unmap_virtual-cleared}

-- A write of a word at a physical address.
unfoldable pub set_word : Frames → ℕ → ℕ → Frames
set_word frames address value f i =
    if (f == address - address % 4096) && (i == address % 4096 / 4) then value else frames f i

-- The page tables as the processor finds them from a page directory that maps itself.
unfoldable pub window_of : Frames → ℕ → ℕ → ℕ
window_of frames cr3 t =
    let entry = frames cr3 (t / 1024) in frames (entry - entry % 4096) (t % 1024)

-- `pdir[1023].addr = phys_cr3_base | 0x3`, and `identity_ptbl[0].addr = 0` for the table of the
-- first directory entry.
unfoldable pub init_frames : Frames → ℕ → Frames
unfolding set_word
init_frames frames cr3 =
    let mapped = set_word frames (cr3 + 1023 * 4) (bit_or cr3 0x3) in
    let entry = mapped cr3 0 in set_word mapped (entry - entry % 1024) 0

-- `Init`: the pages from 0xf0000 on are unmapped last. The final write of cr3 only flushes the
-- processor's copies of the entries.
unfoldable pub vmm_init : Frames → ℕ → Pmm → Vmm → Outcome Vmm
vmm_init frames cr3 pmm v =
    unmap_virtual 0xf0000 (0x300000 / vmm_page_size)
      (record v { window = window_of (init_frames frames cr3) cr3; pmm = pmm })

cleared-behind : (window : ℕ → ℕ) (t : ℕ) → 1008 ≤ t → cleared 768 240 window t ≡ window t
unfolding cleared
cleared-behind window t high = ground arith

-- An entry 0 that is zero stays so.
cleared-low :
    (window words : ℕ → ℕ) (t : ℕ)
    → window t ≡ (if t == 0 then 0 else words t)
    → cleared 768 240 window t ≡ (if t == 0 then 0 else cleared 768 240 words t)
unfolding cleared
cleared-low window words t e = ground arith

-- The physical memory that `Init` leaves before it unmaps pages.
abbrev start_frames : Frames → ℕ → ℕ → ℕ → ℕ → ℕ
start_frames frames cr3 low f i =
    if (f == low) && (i == 0) then 0 else if (f == cr3) && (i == 1023) then cr3 + 3 else frames f i

module _ (frames : Frames) (cr3 low : ℕ) (aligned : cr3 % 4096 ≡ 0) (low_aligned : low % 4096 ≡ 0)
    (first : frames cr3 0 ≡ low + 3) (apart : low ≢ cr3) where
  init_frames-start : (f i : ℕ) → init_frames frames cr3 f i ≡ start_frames frames cr3 low f i
  unfolding init_frames set_word
  init_frames-start f i =
      let frame : cr3 + 1023 * 4 - (cr3 + 1023 * 4) % 4096 ≡ cr3 = omega arith in
      let word : (cr3 + 1023 * 4) % 4096 / 4 ≡ 1023 = omega arith in
      let flags : bit_or cr3 3 ≡ cr3 + 3 = bit_or-3 cr3 (omega arith) in
      let same : (cr3 == cr3) ≡ true = ground arith in
      let table : low + 3 - (low + 3) % 1024 ≡ low = omega arith in
      let place : low - low % 4096 ≡ low = omega arith in
      let start : low % 4096 / 4 ≡ 0 = omega arith in
      let other : ((cr3 == cr3) && (0 == 1023)) ≡ false = ground arith in
      rw (frame, word, flags, first, other, table, place, start)

  directory : (d : ℕ) → init_frames frames cr3 cr3 d ≡ (if d == 1023 then cr3 + 3 else frames cr3 d)
  directory d = init_frames-start cr3 d ∙ ground arith

  abbrev window : ℕ → ℕ
  window = window_of (init_frames frames cr3) cr3

  window-low : (t : ℕ) → t < 1024 → window t ≡ (if t == 0 then 0 else frames low t)
  unfolding window_of
  window-low t small =
      let table : t / 1024 ≡ 0 = omega arith in
      let word : t % 1024 ≡ t = omega arith in
      let entry : init_frames frames cr3 cr3 0 ≡ low + 3 = directory 0 ∙ first in
      let base : low + 3 - (low + 3) % 4096 ≡ low = omega arith in
      rw (table, word, entry, base) (init_frames-start low t ∙ ground arith)

  window-directory :
      (d : ℕ) → d < 1024 → window (dir_slot d) ≡ (if d == 1023 then cr3 + 3 else frames cr3 d)
  unfolding window_of
  window-directory d small =
      let table : dir_slot d / 1024 ≡ 1023 = omega arith in
      let word : dir_slot d % 1024 ≡ d = omega arith in
      let entry : init_frames frames cr3 cr3 1023 ≡ cr3 + 3 = directory 1023 in
      let base : cr3 + 3 - (cr3 + 3) % 4096 ≡ cr3 = omega arith in
      rw (table, word, entry, base) (directory d)

  window-other :
      (t : ℕ)
      → t / 1024 < 1023
      → frames cr3 (t / 1024) - frames cr3 (t / 1024) % 4096 ≢ low
      → frames cr3 (t / 1024) - frames cr3 (t / 1024) % 4096 ≢ cr3
      → window t ≡ window_of frames cr3 t
  unfolding window_of
  window-other t below not_low not_dir =
      let entry : init_frames frames cr3 cr3 (t / 1024) ≡ frames cr3 (t / 1024) =
        directory (t / 1024) ∙ ground arith in
      rw entry (init_frames-start _ (t % 1024) ∙ ground arith)

  -- If the page directory is aligned to pages, its first entry is that of the boot code for another
  -- frame, then `Init` returns, takes over the physical memory manager, and leaves in the first
  -- table an entry 0 that is zero, the entries 240 to 1007 with the bit `present` clear and the
  -- others as they were; the directory has its own address in its last entry and the other
  -- entries as they were; and every table in another frame than these two is as it was.
  pub vmm_init-window :
      (pmm : Pmm) (v : Vmm)
      → (words : ℕ → ℕ) × (vmm_init frames cr3 pmm v ≡ ok (record v { window = words; pmm = pmm }))
        × ((t : ℕ) → t < 1024 → words t ≡ (if t == 0 then 0 else cleared 768 240 (frames low) t))
        × ((d : ℕ) → d < 1023 → words (dir_slot d) ≡ frames cr3 d)
        × (words (dir_slot 1023) ≡ cr3 + 3)
        × ((t : ℕ)
            → 0 < t / 1024
            → t / 1024 < 1023
            → frames cr3 (t / 1024) - frames cr3 (t / 1024) % 4096 ≢ low
            → frames cr3 (t / 1024) - frames cr3 (t / 1024) % 4096 ≢ cr3
            → words t ≡ window_of frames cr3 t)
  unfolding vmm_init
  vmm_init-window pmm v =
      let u = record v { window = window; pmm = pmm } in
      let there : present (window (dir_slot 0)) ≡ true =
        ground (arith, window-directory 0 (omega arith)) in
      let (words, e, same) =
        unmap_virtual-cleared 0xf0000 0x300 u (omega arith)
          (λ k l h. let d : k / 1024 ≡ 0 = omega arith in rw d there) in
      (
        words,
        e,
        (λ t small. same t ∙ cleared-low window (frames low) t (window-low t small)),
        (λ d small.
            same (dir_slot d)
            ∙ cleared-behind window (dir_slot d) (omega arith)
            ∙ window-directory d (omega arith)
            ∙ ground arith),
        same (dir_slot 1023)
            ∙ cleared-behind window (dir_slot 1023) (omega arith)
            ∙ window-directory 1023 (omega arith),
        (λ t low_end high_end not_low not_dir.
            same t
            ∙ cleared-behind window t (omega arith)
            ∙ window-other t high_end not_low not_dir),
      )
