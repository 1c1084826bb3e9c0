-- ===== src/Pmm/Init/Boot.antt =====
-- What `init` of indo-kernel/src/memory/pmm.rs leaves in the statics.
use indominus_os.Prelude.{
  ℕ, zero, suc, ◌+◌, ◌-◌, ◌≡◌, refl, ◌∙◌, min, Bool, false, not, ◌&&◌, ◌||◌, List, [], ◌∷◌, arith,
  ltb, leb, ◌==◌,
}
use indominus_os.Pmm.Bits.{
  IsBytes, bitmap_test, bitmap_test-set, bitmap_test-clear, bitmap_clear-IsBytes, bitmap_test_full,
}
use indominus_os.Pmm.{Pmm, give_frame}
use indominus_os.Pmm.Init.{
  MemoryRegion, start_frame, end_frame, usable_regions, free_loop, free_regions, reserve_zero,
  all_used, init, frames_below, max_addr,
}

-- Frame i lies in the rounded range of a region of the list.
unfoldable pub covered : List MemoryRegion → ℕ → Bool
covered [] i = false
covered (r ∷ rs) i = (leb (start_frame r) i && ltb i (end_frame r)) || covered rs i

free_loop-IsBytes :
    (rounds frame : ℕ) (p : Pmm) → IsBytes p.bitmap → IsBytes (free_loop rounds frame p).bitmap
unfolding free_loop
free_loop-IsBytes zero frame p v = v
free_loop-IsBytes (suc r) frame p v =
    free_loop-IsBytes r (frame + 1) (give_frame frame p) (bitmap_clear-IsBytes frame p.bitmap v)

free_loop-total :
    (rounds frame : ℕ) (p : Pmm) → (free_loop rounds frame p).total_frames ≡ p.total_frames
unfolding free_loop
free_loop-total zero frame p = refl
free_loop-total (suc r) frame p = free_loop-total r (frame + 1) (give_frame frame p)

free_loop-bits :
    (rounds frame j : ℕ) (p : Pmm)
    → IsBytes p.bitmap
    → bitmap_test j (free_loop rounds frame p).bitmap
      ≡ (bitmap_test j p.bitmap && not (leb frame j && ltb j (frame + rounds)))
unfolding free_loop
free_loop-bits zero frame j p v = ground arith
free_loop-bits (suc r) frame j p v = ground (
  arith,
  free_loop-bits r (frame + 1) j (give_frame frame p) (bitmap_clear-IsBytes frame p.bitmap v),
  bitmap_test-clear frame p.bitmap v j,
)

-- One region's loop, to the end clamped to the tracked frames.
abbrev pub freed : MemoryRegion → Pmm → Pmm
freed r p = free_loop (min (end_frame r) p.total_frames - start_frame r) (start_frame r) p

pub freed-IsBytes : (r : MemoryRegion) (p : Pmm) → IsBytes p.bitmap → IsBytes (freed r p).bitmap
freed-IsBytes r p =
    free_loop-IsBytes (min (end_frame r) p.total_frames - start_frame r) (start_frame r) p

pub freed-total : (r : MemoryRegion) (p : Pmm) → (freed r p).total_frames ≡ p.total_frames
freed-total r p =
    free_loop-total (min (end_frame r) p.total_frames - start_frame r) (start_frame r) p

pub free_regions-IsBytes :
    (rs : List MemoryRegion) (p : Pmm) → IsBytes p.bitmap → IsBytes (free_regions rs p).bitmap
unfolding free_regions
free_regions-IsBytes [] p v = v
free_regions-IsBytes (r ∷ rs) p v = free_regions-IsBytes rs (freed r p) (freed-IsBytes r p v)

pub free_regions-total :
    (rs : List MemoryRegion) (p : Pmm) → (free_regions rs p).total_frames ≡ p.total_frames
unfolding free_regions
free_regions-total [] p = refl
free_regions-total (r ∷ rs) p = free_regions-total rs (freed r p) ∙ freed-total r p

pub freed-bits :
    (r : MemoryRegion) (j : ℕ) (p : Pmm)
    → IsBytes p.bitmap
    → bitmap_test j (freed r p).bitmap ≡ (
        bitmap_test j p.bitmap
        && not (ltb j p.total_frames && (leb (start_frame r) j && ltb j (end_frame r))))
freed-bits r j p v =
    ground (
      arith,
      free_loop-bits (min (end_frame r) p.total_frames - start_frame r) (start_frame r) j p v,
    )

pub free_regions-bits :
    (rs : List MemoryRegion) (j : ℕ) (p : Pmm)
    → IsBytes p.bitmap
    → bitmap_test j (free_regions rs p).bitmap
      ≡ (bitmap_test j p.bitmap && not (ltb j p.total_frames && covered rs j))
unfolding free_regions covered
free_regions-bits [] j p v = ground arith
free_regions-bits (r ∷ rs) j p v = ground (
  arith,
  free_regions-bits rs j (freed r p) (freed-IsBytes r p v),
  freed-bits r j p v,
  freed-total r p,
)

reserve_zero-bits :
    (p : Pmm) (j : ℕ)
    → IsBytes p.bitmap
    → bitmap_test j (reserve_zero p).bitmap ≡ (bitmap_test j p.bitmap || j == 0)
unfolding reserve_zero
reserve_zero-bits p j v = ground (arith, bitmap_test-set 0 p.bitmap v j)

reserve_zero-total : (p : Pmm) → (reserve_zero p).total_frames ≡ p.total_frames
unfolding reserve_zero
reserve_zero-total p = ground arith

pub init_lem :
    (memory_map : List MemoryRegion) (p : Pmm)
    → init memory_map p
      ≡ reserve_zero (free_regions (usable_regions memory_map) (all_used memory_map p))
unfolding init
init_lem memory_map p = refl

pub init-total :
    (memory_map : List MemoryRegion) (p : Pmm)
    → (init memory_map p).total_frames ≡ frames_below (max_addr 0 memory_map)
init-total memory_map p =
    let rs = usable_regions memory_map in
    let start = all_used memory_map p in
    rw (init_lem memory_map p)
      (reserve_zero-total (free_regions rs start) ∙ free_regions-total rs start)

pub full-IsBytes : IsBytes (λ _. 255)
full-IsBytes = record { byte = λ k. omega arith }

-- After `init` a frame is free exactly if it is not frame 0, is tracked, and lies in a usable region
-- of the map, whose bounds are rounded outwards to whole frames.
pub init-free :
    (memory_map : List MemoryRegion) (p : Pmm) (j : ℕ)
    → bitmap_test j (init memory_map p).bitmap
      ≡ not (
          not (j == 0)
          && (ltb j (init memory_map p).total_frames && covered (usable_regions memory_map) j))
init-free memory_map p j =
    let rs = usable_regions memory_map in
    let start = all_used memory_map p in
    rw (init_lem memory_map p) (
      ground (
        arith,
        reserve_zero-bits (free_regions rs start) j (free_regions-IsBytes rs start full-IsBytes),
        reserve_zero-total (free_regions rs start),
        free_regions-total rs start,
        free_regions-bits rs j start full-IsBytes,
        bitmap_test_full j,
      ))
