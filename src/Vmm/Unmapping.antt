-- ===== src/Vmm/Unmapping.antt =====
-- What UnmapVirtual of src/arch/x86/VMM.cpp leaves in the page tables.
use ann_os.Base.{
  ℕ, zero, suc, ◌+◌, ◌-◌, ◌*◌, ◌/◌, ◌%◌, ◌^◌, ◌≤◌, ◌<◌, ◌≡◌, refl, ◌∙◌, true, ◌&&◌, leb, ltb,
  if◌then◌else◌, ok, arith,
}
use ann_os.Vmm.{Vmm, dir_slot, present, put_word, unmap_loop, unmap_virtual}

-- The words with the bit `present` clear in `n` entries from entry `first` on.
unfoldable pub cleared : ℕ → ℕ → (ℕ → ℕ) → ℕ → ℕ
cleared n first window t =
    if leb first t && ltb t (first + n) then window t - window t % 2 else window t

unfoldable unmap_words : ℕ → ℕ → (ℕ → ℕ) → ℕ → ℕ
unmap_words zero toffset window = window
unmap_words (suc n) toffset window =
    unmap_words n (toffset + 1) (put_word window toffset (window toffset - window toffset % 2))

unmap_words-cleared :
    (n first : ℕ) (window : ℕ → ℕ) (t : ℕ) → unmap_words n first window t ≡ cleared n first window t
unfolding unmap_words cleared
unmap_words-cleared zero first window t = ground arith
unmap_words-cleared (suc n) first window t =
    unmap_words-cleared n (first + 1) (put_word window first (window first - window first % 2)) t
    ∙ ground arith

unmap_loop-words :
    (n first : ℕ) (v : Vmm)
    → first + n ≤ 1023 * 1024
    → ((k : ℕ) → first ≤ k → k < first + n → present (v.window (dir_slot (k / 1024))) ≡ true)
    → unmap_loop n first v ≡ ok (record v { window = unmap_words n first v.window })
unfolding unmap_loop unmap_words
unmap_loop-words zero first v low there = refl
unmap_loop-words (suc n) first v low there = rw (there first (omega arith) (omega arith)) (
    unmap_loop-words n (first + 1) _ (omega arith)
      (λ k l u. ground (arith, there k (omega arith) (omega arith))))

-- If the run ends below the page tables at 0xffc00000 and the tables of its pages are there,
-- UnmapVirtual returns, clears the bit `present` in the entries of the `n` pages and changes
-- nothing else.
pub unmap_virtual-cleared :
    (virt n : ℕ) (v : Vmm)
    → virt / 4096 + n ≤ 1023 * 1024
    → ((k : ℕ)
        → virt / 4096 ≤ k
        → k < virt / 4096 + n
        → present (v.window (dir_slot (k / 1024))) ≡ true)
    → (words : ℕ → ℕ) × (unmap_virtual virt n v ≡ ok (record v { window = words }))
      × ((t : ℕ) → words t ≡ cleared n (virt / 4096) v.window t)
unfolding unmap_virtual
unmap_virtual-cleared virt n v low there =
    let page : virt / 2 ^ 22 * 1024 + virt / 2 ^ 12 % 1024 ≡ virt / 4096 = omega arith in
    (
      unmap_words n (virt / 4096) v.window,
      rw page (unmap_loop-words n (virt / 4096) v low there),
      unmap_words-cleared n (virt / 4096) v.window,
    )
