-- ===== src/Pmm.antt =====
-- src/include/PMM.hpp and src/PMM.cpp: the bitmap-based physical memory manager. This file holds
-- its state; each child models one group of its methods.
pub mod Bitmap
pub mod Zones
pub mod Mapping
pub mod Allocation
pub mod Layout
pub mod Init
pub mod Ownership
mod Tests
use ann_os.Base.{ℕ, List, Memory}

-- `struct MemoryMap`, one entry of the loader's memory map.
pub record MemoryMap : Type 0 where
  pub start : ℕ
  pub len : ℕ
  pub type : ℕ

abbrev pub phys_page_size : ℕ
phys_page_size = 4096

-- `enum PMMZoneType`, as the bit flags that the code adds and tests.
abbrev pub normal : ℕ
normal = 1

abbrev pub mmio : ℕ
mmio = 2

abbrev pub low_memory : ℕ
low_memory = 4

-- `struct PMMZone`; `alloc_bitmap` is the address of the zone's bitmap.
pub record PmmZone : Type 0 where
  pub start : ℕ
  pub first_free_addr : ℕ
  pub pagecount : ℕ
  pub type : ℕ
  pub alloc_bitmap : ℕ

-- `class PMM`: the array `_mmap` with its `_mmap_count` zones, and the memory of the bitmaps.
pub record Pmm : Type 0 where
  pub mmap : List PmmZone
  pub mem : Memory
