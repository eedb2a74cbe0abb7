-- ===== src/Libk/Mem/Laws.antt =====
-- What the byte operations promise: which bytes they write, and what they leave alone.
use ann_os.Base.{
  ℕ, zero, suc, ◌+◌, ◌-◌, ◌%◌, ◌≤◌, ◌<◌, ◌≡◌, refl, ap, ◌↔◌, ◌⊎◌, ◌&&◌, leb, ltb, if◌then◌else◌,
  arith, Memory, load8, store8,
}
use ann_os.Libk.Mem.{equal, memcmp, memcpy, memset}

-- `memset` writes the byte `c` at each of the `n` addresses from `s` on, and nothing else.
pub load8-memset :
    (m : Memory) (s c n a : ℕ)
    → load8 (memset m s c n) a ≡ (if leb s a && ltb a (s + n) then c % 256 else load8 m a)
unfolding memset
load8-memset m s c zero a = ground arith
load8-memset m s c (suc n) a = rw (load8-memset (store8 m s c) (s + 1) c n a) (ground arith)

pub memset-frame : (m : Memory) (s c n a : ℕ) → (a < s) ⊎ (s + n ≤ a) → memset m s c n a ≡ m a
unfolding memset
memset-frame m s c zero a h = refl
memset-frame m s c (suc n) a h = ground (arith, memset-frame (store8 m s c) (s + 1) c n a)

-- Where the source does not lie inside the destination's tail (`dest ≤ src`, or no overlap),
-- `memcpy` puts at each of the `len` addresses of `dest` the byte that the source held before the
-- call, and leaves all other bytes.
pub load8-memcpy :
    (m : Memory) (dest src len a : ℕ)
    → (dest ≤ src) ⊎ (src + len ≤ dest)
    → load8 (memcpy m dest src len) a
      ≡ (if leb dest a && ltb a (dest + len) then load8 m (src + (a - dest)) else load8 m a)
unfolding memcpy
load8-memcpy m dest src zero a h = ground arith
load8-memcpy m dest src (suc len) a h =
    rw (load8-memcpy (store8 m dest (load8 m src)) (dest + 1) (src + 1) len a (omega arith))
      (ground (arith, first, later))
  where
    first : a ≡ dest → m (src + (a - dest)) ≡ m src
    first e = ap m (omega arith)

    later : dest < a → m (src + 1 + (a - (dest + 1))) ≡ m (src + (a - dest))
    later e = ap m (omega arith)

memcmp_sound :
    (m : Memory) (s1 s2 len : ℕ)
    → memcmp m s1 s2 len ≡ equal
    → (i : ℕ) → i < len
    → load8 m (s1 + i) ≡ load8 m (s2 + i)
unfolding memcmp
memcmp_sound m s1 s2 zero h i lt = absurd (omega arith)
memcmp_sound m s1 s2 (suc len) h zero lt =
    let e : s1 + 0 ≡ s1 = omega arith in
    let f : s2 + 0 ≡ s2 = omega arith in rw (e, f) (ground arith)
memcmp_sound m s1 s2 (suc len) h (suc i) lt =
    let e : s1 + suc i ≡ s1 + 1 + i = omega arith in
    let f : s2 + suc i ≡ s2 + 1 + i = omega arith in
    rw (e, f) (memcmp_sound m (s1 + 1) (s2 + 1) len (ground arith) i (omega arith))

memcmp_complete :
    (m : Memory) (s1 s2 len : ℕ)
    → ((i : ℕ) → i < len → load8 m (s1 + i) ≡ load8 m (s2 + i))
    → memcmp m s1 s2 len ≡ equal
unfolding memcmp
memcmp_complete m s1 s2 zero h = refl
memcmp_complete m s1 s2 (suc len) h =
    ground (arith, here, memcmp_complete m (s1 + 1) (s2 + 1) len there)
  where
    here : load8 m s1 ≡ load8 m s2
    here =
        let e : s1 + 0 ≡ s1 = omega arith in
        let f : s2 + 0 ≡ s2 = omega arith in rw (e, f) at (h 0 (omega arith))

    there : (i : ℕ) → i < len → load8 m (s1 + 1 + i) ≡ load8 m (s2 + 1 + i)
    there i lt =
        let e : s1 + suc i ≡ s1 + 1 + i = omega arith in
        let f : s2 + suc i ≡ s2 + 1 + i = omega arith in rw (e, f) at (h (suc i) (omega arith))

-- `memcmp` returns 0 exactly when the two runs of `len` bytes are the same.
memcmp-equal_iff :
    (m : Memory) (s1 s2 len : ℕ)
    → (memcmp m s1 s2 len ≡ equal) ↔ ((i : ℕ) → i < len → load8 m (s1 + i) ≡ load8 m (s2 + i))
memcmp-equal_iff m s1 s2 len = (memcmp_sound m s1 s2 len, memcmp_complete m s1 s2 len)
