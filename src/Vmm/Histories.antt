-- ===== src/Vmm/Histories.antt =====
-- Any number of allocations of virtual addresses (src/arch/x86/VMM.cpp) out of one zone.
use ann_os.Base.{ℕ, ◌+◌, ◌*◌, ◌^◌, ◌≤◌, ◌<◌, ◌≡◌, List, [], ◌∷◌, ok, arith}
use ann_os.Vmm.{
  Vmm, VmmZone, Frames, vmm_page_size, addr_end, last_vaddr, allocate_virtual_physical,
}
use ann_os.Vmm.Zones.{allocate_virtual_physical-Allocated}

-- The addresses handed out with their numbers of pages, the newest first. Each call asks for a
-- page at least, and the run that it asks for does not wrap around.
pub data Grants (frames : Frames) (zone : VmmZone) (start : Vmm) : List (ℕ × ℕ) → Vmm → Type 0 where
  none_yet : Grants frames zone start [] start
  granted :
      {rs : List (ℕ × ℕ)} {v w : Vmm} {a phys : ℕ} (fuel pzone n flags : ℕ)
      → Grants frames zone start rs v
      → 0 < n
      → last_vaddr v zone + vmm_page_size * n < 2 ^ 32
      → allocate_virtual_physical frames fuel pzone n flags zone v ≡ ok (a, phys, w)
      → Grants frames zone start ((a, n) ∷ rs) w

-- All runs end at or below an address.
abbrev pub Below : ℕ → List (ℕ × ℕ) → Type 0
Below bound [] = Unit
Below bound ((a, n) ∷ rs) = (a + vmm_page_size * n ≤ bound) × Below bound rs

-- Each run lies above all the earlier ones.
abbrev pub Stacked : List (ℕ × ℕ) → Type 0
Stacked [] = Unit
Stacked ((a, n) ∷ rs) = Below a rs × Stacked rs

abbrev pub From : ℕ → List (ℕ × ℕ) → Type 0
From low [] = Unit
From low ((a, n) ∷ rs) = (low ≤ a) × From low rs

Below-le : (low high : ℕ) (rs : List (ℕ × ℕ)) → low ≤ high → Below low rs → Below high rs
Below-le low high [] le b = tt
Below-le low high ((a, n) ∷ rs) le (here, b) = (omega arith, Below-le low high rs le b)

-- After any number of allocations out of a zone, each of a page at least and without wrapping
-- around, the runs that it has handed out lie one above the other: no two of them share an address,
-- none begins below the address where the zone stood at first, and all end at or below both the
-- zone's last address and the address where the zone stands now.
pub Grants-Stacked :
    (frames : Frames) (zone : VmmZone) (start : Vmm) {rs : List (ℕ × ℕ)} {w : Vmm}
    → Grants frames zone start rs w
    → Stacked rs
      × From (last_vaddr start zone) rs
      × Below (last_vaddr w zone) rs
      × Below (addr_end zone) rs
      × (last_vaddr start zone ≤ last_vaddr w zone)
Grants-Stacked frames zone start none_yet = (tt, tt, tt, tt, omega arith)
Grants-Stacked frames zone start (granted {rs} {v} {w} {a} fuel pzone n flags g pos fits h) =
    let (stacked, from, below, inside, grown) = Grants-Stacked frames zone start g in
    let k = allocate_virtual_physical-Allocated frames fuel pzone n flags zone v h in
    let at = k.address in
    let next = k.next in
    let room = k.room in
    (
      (Below-le (last_vaddr v zone) a rs (omega arith) below, stacked),
      (omega arith, from),
      (omega arith, Below-le (last_vaddr v zone) (last_vaddr w zone) rs (omega arith) below),
      (ground arith, inside),
      omega arith,
    )
