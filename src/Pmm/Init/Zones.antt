-- ===== src/Pmm/Init/Zones.antt =====
-- The zones and bitmaps that the loop of the constructor builds.
use ann_os.Base.{
  ℕ, zero, suc, ◌+◌, ◌/◌, ◌%◌, ◌^◌, ◌<◌, ◌≡◌, refl, ◌∙◌, inl, arith, Memory, false, some, List, [],
  ◌∷◌, get_elem?, bit_at-zero, add32,
}
use ann_os.Libk.Mem.{memset}
use ann_os.Libk.Mem.Laws.{load8-memset, memset-frame}
use ann_os.Pmm.{MemoryMap, PmmZone}
use ann_os.Pmm.Bitmap.Pages.{is_mapped}
use ann_os.Pmm.Layout.{bitmap_bytes, Layout, is_mapped-agree}
use ann_os.Pmm.Init.{zone_pages, new_zone, build_zones}

-- The bytes of all bitmaps.
abbrev pub tables_size : List MemoryMap → ℕ
tables_size [] = 0
tables_size (area ∷ areas) = bitmap_bytes (zone_pages area.len) + tables_size areas

no_wrap : (kend bytes rest : ℕ) → kend + (bytes + rest) < 2 ^ 32 → add32 kend bytes ≡ kend + bytes
no_wrap kend bytes rest h = omega arith

-- The new end lies behind all the bitmaps.
pub build_zones-kend :
    (m : Memory) (kend : ℕ) (areas : List MemoryMap)
    → kend + tables_size areas < 2 ^ 32
    → (build_zones m kend areas).1 ≡ kend + tables_size areas
unfolding build_zones
build_zones-kend m kend [] h = omega arith
build_zones-kend m kend (area ∷ areas) h =
    rw (no_wrap kend (bitmap_bytes (zone_pages area.len)) (tables_size areas) h) (
      omega (
        arith,
        build_zones-kend (memset m kend 0 (bitmap_bytes (zone_pages area.len)))
            (kend + bitmap_bytes (zone_pages area.len)) areas (omega arith),
      ))

build_zones-frame :
    (m : Memory) (kend : ℕ) (areas : List MemoryMap) (a : ℕ)
    → kend + tables_size areas < 2 ^ 32
    → a < kend
    → (build_zones m kend areas).0 a ≡ m a
unfolding build_zones
build_zones-frame m kend [] a h lt = refl
build_zones-frame m kend (area ∷ areas) a h lt =
    let bytes = bitmap_bytes (zone_pages area.len) in
    rw (no_wrap kend (bitmap_bytes (zone_pages area.len)) (tables_size areas) h) (
      build_zones-frame (memset m kend 0 bytes) (kend + bytes) areas a (omega arith) (omega arith)
      ∙ memset-frame m kend 0 bytes a (inl lt))

pub build_zones-Layout :
    (m : Memory) (kend : ℕ) (areas : List MemoryMap)
    → kend + tables_size areas < 2 ^ 32
    → Layout kend (build_zones m kend areas).2
unfolding build_zones new_zone
build_zones-Layout m kend [] h = tt
build_zones-Layout m kend (area ∷ areas) h =
    let bytes = bitmap_bytes (zone_pages area.len) in
    (
      omega arith,
      rw (no_wrap kend (bitmap_bytes (zone_pages area.len)) (tables_size areas) h)
          (build_zones-Layout (memset m kend 0 bytes) (kend + bytes) areas (omega arith)),
    )

cleared :
    (m : Memory) (bitmap pages q : ℕ)
    → q < pages
    → is_mapped (memset m bitmap 0 (bitmap_bytes pages)) bitmap q ≡ false
unfolding is_mapped
cleared m bitmap pages q lt =
    rw (load8-memset m bitmap 0 (bitmap_bytes pages) (bitmap + q / 8))
      (ground (arith, bit_at-zero (q % 8)))

first_free :
    (m : Memory) (kend : ℕ) (area : MemoryMap) (areas : List MemoryMap)
    → kend + tables_size (area ∷ areas) < 2 ^ 32
    → (q : ℕ) → q < zone_pages area.len
    → is_mapped (build_zones m kend (area ∷ areas)).0 kend q ≡ false
unfolding build_zones
first_free m kend area areas h q lt =
    let bytes = bitmap_bytes (zone_pages area.len) in
    rw (no_wrap kend (bitmap_bytes (zone_pages area.len)) (tables_size areas) h) (
      is_mapped-agree (memset m kend 0 bytes) _ kend q (
        build_zones-frame (memset m kend 0 bytes) (kend + bytes) areas (kend + q / 8) (omega arith)
          (omega arith))
      ∙ cleared m kend (zone_pages area.len) q lt)

-- Every page of every zone is free.
pub build_zones-free :
    (m : Memory) (kend : ℕ) (areas : List MemoryMap)
    → kend + tables_size areas < 2 ^ 32
    → (k : ℕ) (zone : PmmZone) → get_elem? (build_zones m kend areas).2 k ≡ some zone
    → (q : ℕ) → q < zone.pagecount
    → is_mapped (build_zones m kend areas).0 zone.alloc_bitmap q ≡ false
unfolding build_zones
build_zones-free m kend [] h k zone at q lt = absurd (cc)
build_zones-free m kend (area ∷ areas) h zero zone at q lt =
    let z : new_zone area kend ≡ zone = cc in
    let b : zone.alloc_bitmap ≡ kend = unfold new_zone in ground arith in
    let c : zone.pagecount ≡ zone_pages area.len = unfold new_zone in ground arith in
    rw b (first_free m kend area areas h q (rw c at lt))
build_zones-free m kend (area ∷ areas) h (suc k) zone at q lt =
    let bytes = bitmap_bytes (zone_pages area.len) in
    let e = no_wrap kend (bitmap_bytes (zone_pages area.len)) (tables_size areas) h in
    rw e (
      build_zones-free (memset m kend 0 bytes) (kend + bytes) areas (omega arith) k zone
        (rw e at at) q lt)
