-- ===== src/Pmm/Init.antt =====
-- `init` of indo-kernel/src/memory/pmm.rs, and the memory map of libs/indo-core/src/lib.rs.
pub mod Boot
pub mod Map
pub mod Count
use indominus_os.Prelude.{
  ℕ, zero, suc, ◌+◌, ◌-◌, ◌/◌, ◌≡◌, ◌<◌, min, Bool, true, false, not, List, [], ◌∷◌, ltb,
  if◌then◌else◌, wrapping_add, page_size,
}
use indominus_os.Pmm.Bits.{bitmap_clear, bitmap_set, bitmap_test}
use indominus_os.Pmm.{Pmm, max_frames, take_frame, give_frame}

pub data MemoryRegionKind : Type 0 where
  usable reserved acpi_reclaimable acpi_nvs mmio bootloader_code kernel_code unknown :
      MemoryRegionKind

pub record MemoryRegion : Type 0 where
  pub start : ℕ
  pub length : ℕ
  pub kind : MemoryRegionKind

abbrev pub is_usable : MemoryRegionKind → Bool
is_usable usable = true
is_usable _ = false

-- `entries().iter().filter(|r| r.kind == Usable)`
pub usable_regions : List MemoryRegion → List MemoryRegion
usable_regions [] = []
usable_regions (r ∷ rs) = if is_usable r.kind then r ∷ usable_regions rs else usable_regions rs

-- Step 1: the highest end address.
pub max_addr : ℕ → List MemoryRegion → ℕ
max_addr acc [] = acc
max_addr acc (r ∷ rs) =
    let end = wrapping_add r.start r.length in max_addr (if ltb acc end then end else acc) rs

pub frames_below : ℕ → ℕ
frames_below addr =
    let total = wrapping_add addr (page_size - 1) / page_size in
    if ltb max_frames total then max_frames else total

-- Step 3: the frames of a usable region, from the start rounded down to the end rounded up.
abbrev pub start_frame : MemoryRegion → ℕ
start_frame r = r.start / page_size

abbrev pub end_frame : MemoryRegion → ℕ
end_frame r = wrapping_add (wrapping_add r.start r.length) (page_size - 1) / page_size

pub free_loop : ℕ → ℕ → Pmm → Pmm
free_loop zero frame p = p
free_loop (suc rounds) frame p = free_loop rounds (frame + 1) (give_frame frame p)

pub free_regions : List MemoryRegion → Pmm → Pmm
unfolding free_loop
free_regions [] p = p
free_regions (r ∷ rs) p =
    let clamped_end = min (end_frame r) p.total_frames in
    free_regions rs (free_loop (clamped_end - start_frame r) (start_frame r) p)

-- Step 2: all bits set, and no free frame.
abbrev pub all_used : List MemoryRegion → Pmm → Pmm
all_used map p = record p {
  bitmap = λ _. 255;
  total_frames = frames_below (max_addr 0 map);
  free_frames = 0;
}

-- Step 4: frame 0 stays allocated.
pub reserve_zero : Pmm → Pmm
reserve_zero p = if not (bitmap_test 0 p.bitmap) then take_frame 0 p else p

unfoldable pub init : List MemoryRegion → Pmm → Pmm
unfolding free_regions usable_regions reserve_zero frames_below max_addr
init memory_map p = reserve_zero (free_regions (usable_regions memory_map) (all_used memory_map p))
