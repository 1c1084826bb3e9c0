-- ===== src/Pmm/Init/Map.antt =====
-- The memory map as bytes, beside the frames that `init` of indo-kernel/src/memory/pmm.rs frees.
use indominus_os.Prelude.{
  ℕ, ◌+◌, ◌*◌, ◌≡◌, ◌≤◌, ◌<◌, ◌⊎◌, ◌↔◌, refl, inl, inr, true, false, ◌&&◌, List, [], ◌∷◌, ltb, leb,
  if◌then◌else◌, arith, Bool-cases, All, u64_mod, page_size, wrapping_add,
}
use indominus_os.Pmm.Bits.{bitmap_test}
use indominus_os.Pmm.{Pmm, max_frames}
use indominus_os.Pmm.Init.{
  MemoryRegion, MemoryRegionKind, usable, reserved, acpi_reclaimable, acpi_nvs, mmio,
  bootloader_code, kernel_code, unknown, is_usable, start_frame, end_frame, usable_regions,
  frames_below, max_addr, init,
}
use indominus_os.Pmm.Init.Boot.{covered, init-free, init-total}

-- The region ends a page or more below the end of the 64-bit addresses.
abbrev pub EndsEarly : MemoryRegion → Type 0
EndsEarly r = r.start + r.length + page_size ≤ u64_mod

-- Some bytes of the frame are bytes of the region, or, for an empty region, surround its address.
abbrev pub Meets : MemoryRegion → ℕ → Type 0
Meets r j = (r.start < (j + 1) * page_size) × (j * page_size < r.start + r.length)

-- The frame meets a region of the map whose kind is Usable.
unfoldable pub MeetsUsable : List MemoryRegion → ℕ → Type 0
MeetsUsable [] j = ⊥
MeetsUsable (r ∷ rs) j = ((r.kind ≡ usable) × Meets r j) ⊎ MeetsUsable rs j

-- The rounding of a region's bounds, by its bytes.
rounded :
    (r : MemoryRegion) (j : ℕ)
    → EndsEarly r
    → (leb (start_frame r) j && ltb j (end_frame r))
      ≡ (ltb r.start ((j + 1) * page_size) && ltb (j * page_size) (r.start + r.length))
rounded r j early = ground arith

max_addr-above : (acc : ℕ) (map : List MemoryRegion) → acc ≤ max_addr acc map
unfolding max_addr
max_addr-above acc [] = omega arith
max_addr-above acc (r ∷ rs) =
    let rest =
      max_addr-above
        (if ltb acc (wrapping_add r.start r.length) then wrapping_add r.start r.length else acc)
        rs in
    ground (arith, rest)

max_addr-early :
    (acc : ℕ) (map : List MemoryRegion)
    → acc + page_size ≤ u64_mod
    → All EndsEarly map
    → max_addr acc map + page_size ≤ u64_mod
unfolding max_addr
max_addr-early acc [] low all = low
max_addr-early acc (r ∷ rs) low (early, all) =
    max_addr-early
      (if ltb acc (wrapping_add r.start r.length) then wrapping_add r.start r.length else acc) rs
      (ground arith) all

MeetsUsable-max_addr :
    (acc : ℕ) (map : List MemoryRegion) (j : ℕ)
    → All EndsEarly map
    → MeetsUsable map j
    → j * page_size < max_addr acc map
unfolding max_addr MeetsUsable
MeetsUsable-max_addr acc [] j all none_there = absurd none_there
MeetsUsable-max_addr acc (r ∷ rs) j (early, all) (inl (kind, (from, below))) =
    let rest =
      max_addr-above
        (if ltb acc (wrapping_add r.start r.length) then wrapping_add r.start r.length else acc)
        rs in
    ground (arith, rest)
MeetsUsable-max_addr acc (r ∷ rs) j (early, all) (inr later) =
    MeetsUsable-max_addr
      (if ltb acc (wrapping_add r.start r.length) then wrapping_add r.start r.length else acc) rs j
      all later

is_usable_eq : (k : MemoryRegionKind) → is_usable k ≡ true → k ≡ usable
is_usable_eq usable e = refl
is_usable_eq reserved e = cc e
is_usable_eq acpi_reclaimable e = cc e
is_usable_eq acpi_nvs e = cc e
is_usable_eq mmio e = cc e
is_usable_eq bootloader_code e = cc e
is_usable_eq kernel_code e = cc e
is_usable_eq unknown e = cc e

covered-usable_regions :
    (map : List MemoryRegion) (j : ℕ)
    → All EndsEarly map
    → covered (usable_regions map) j ≡ true
    → MeetsUsable map j
unfolding covered usable_regions MeetsUsable
covered-usable_regions [] j all here = cc here
covered-usable_regions (r ∷ rs) j (early, all) here = elim (Bool-cases (is_usable r.kind)) [
  | inr other ↦ inr (covered-usable_regions rs j all (rw other at here))
  | inl of_kind ↦
      elim (Bool-cases
        (ltb r.start ((j + 1) * page_size) && ltb (j * page_size) (r.start + r.length))) [
          | inl meets ↦
              inl (is_usable_eq r.kind of_kind, (ground (arith, meets), ground (arith, meets)))
          | inr apart ↦
              inr (covered-usable_regions rs j all (rw (of_kind, rounded r j early, apart) at here))
        ]
]

MeetsUsable-covered :
    (map : List MemoryRegion) (j : ℕ)
    → All EndsEarly map
    → MeetsUsable map j
    → covered (usable_regions map) j ≡ true
unfolding covered usable_regions MeetsUsable
MeetsUsable-covered [] j all none_there = absurd none_there
MeetsUsable-covered (r ∷ rs) j (early, all) (inl (kind, (from, below))) =
    rw (kind, rounded r j early) (ground arith)
MeetsUsable-covered (r ∷ rs) j (early, all) (inr later) =
    let rest = MeetsUsable-covered rs j all later in
    elim (Bool-cases (is_usable r.kind)) [
      | inl of_kind ↦ rw (of_kind, rest) (ground arith)
      | inr other ↦ rw other rest
    ]

-- After `init` a frame is free exactly if it is not frame 0, lies below the limit of tracked frames, and
-- meets a region of the map of kind Usable: a byte of the frame lies in the region, or the region is
-- empty and starts inside the frame, past its first byte. This needs that every region of the map ends a page or more below
-- the end of the 64-bit addresses.
pub init-MeetsUsable :
    (memory_map : List MemoryRegion) (p : Pmm) (j : ℕ)
    → All EndsEarly memory_map
    → (bitmap_test j (init memory_map p).bitmap ≡ false)
      ↔ ((0 < j) × (j < max_frames) × MeetsUsable memory_map j)
unfolding frames_below
init-MeetsUsable memory_map p j early =
    let free = init-free memory_map p j in
    let total = init-total memory_map p in
    let top = max_addr-early 0 memory_map (omega arith) early in
    (
      λ is_free. (
        ground (arith, free, is_free),
        ground (arith, free, is_free, total),
        covered-usable_regions memory_map j early (ground (arith, free, is_free)),
      ),
      λ (pos, low, meets).
          let inside = MeetsUsable-covered memory_map j early meets in
          let below = MeetsUsable-max_addr 0 memory_map j early meets in
          ground (arith, free, total, top, inside, below),
    )
