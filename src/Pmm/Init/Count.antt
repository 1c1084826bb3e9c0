-- ===== src/Pmm/Init/Count.antt =====
-- The count of free frames after `init` of indo-kernel/src/memory/pmm.rs.
use indominus_os.Prelude.{
  ℕ, zero, suc, ◌+◌, ◌-◌, ◌≡◌, ◌<◌, ◌≤◌, refl, sym, ◌∙◌, inl, inr, min, true, false, List, [], ◌∷◌,
  arith, Bool-cases,
}
use indominus_os.Pmm.Bits.{
  IsBytes, bitmap_test, bitmap_test-clear, bitmap_clear-IsBytes, count_free, count_free-clear,
  count_free-le, count_free_zero, bitmap_test_full,
}
use indominus_os.Pmm.{Pmm, max_frames, give_frame, bss}
use indominus_os.Pmm.Invariant.{Inv, take-Inv}
use indominus_os.Pmm.Init.Boot.{
  covered, freed, freed-IsBytes, freed-bits, freed-total, free_regions-IsBytes, free_regions-bits,
  free_regions-total, init_lem, full-IsBytes, init-free,
}
use indominus_os.Pmm.Init.{
  MemoryRegion, start_frame, end_frame, usable_regions, free_loop, free_regions, reserve_zero,
  all_used, init, frames_below, max_addr,
}

-- The count of free frames agrees with the bitmap.
abbrev Counted : Pmm → Type 0
Counted p = p.free_frames ≡ count_free p.bitmap p.total_frames

free_loop-Counted :
    (rounds frame : ℕ) (p : Pmm)
    → IsBytes p.bitmap
    → p.total_frames ≤ max_frames
    → (0 < rounds → rounds + frame ≤ p.total_frames)
    → ((j : ℕ) → frame ≤ j → j < frame + rounds → bitmap_test j p.bitmap ≡ true)
    → Counted p
    → Counted (free_loop rounds frame p)
unfolding free_loop
free_loop-Counted zero frame p v small fits used c = c
free_loop-Counted (suc r) frame p v small fits used c =
    free_loop-Counted r (frame + 1) (give_frame frame p) (bitmap_clear-IsBytes frame p.bitmap v)
      small (λ pos. omega (arith, fits (omega arith)))
      (λ j lo hi.
        ground (arith, bitmap_test-clear frame p.bitmap v j, used j (omega arith) (omega arith)))
      (omega (
        arith,
        c,
        fits (omega arith),
        count_free-le p.bitmap p.total_frames,
        count_free-clear frame p.bitmap v p.total_frames (omega (arith, fits (omega arith)))
            (used frame (omega arith) (omega arith)),
      ))

-- No frame lies in the rounded ranges of two regions.
abbrev pub DisjointFrames : List MemoryRegion → Type 0
DisjointFrames [] = Unit
DisjointFrames (r ∷ rs) =
    ((j : ℕ) → start_frame r ≤ j → j < end_frame r → covered rs j ≡ false) × DisjointFrames rs

free_regions-Counted :
    (rs : List MemoryRegion) (p : Pmm)
    → IsBytes p.bitmap
    → p.total_frames ≤ max_frames
    → DisjointFrames rs
    → ((j : ℕ) → j < p.total_frames → covered rs j ≡ true → bitmap_test j p.bitmap ≡ true)
    → Counted p
    → Counted (free_regions rs p)
unfolding free_regions covered
free_regions-Counted [] p v small apart used c = c
free_regions-Counted (r ∷ rs) p v small apart used c =
    free_regions-Counted rs (freed r p) (freed-IsBytes r p v) (rw (freed-total r p) small) apart.1
      (λ j lt cov. ground (arith, freed-bits r j p v, used j, apart.0 j, freed-total r p))
      (free_loop-Counted (min (end_frame r) p.total_frames - start_frame r) (start_frame r) p v
        small (λ pos. omega arith) (λ j lo hi. used j (omega arith) (ground arith)) c)

max_frames-ge : (addr : ℕ) → frames_below addr ≤ max_frames
unfolding frames_below
max_frames-ge addr = ground arith

reserve_zero-Inv :
    (p : Pmm) → Inv p → (bitmap_test 0 p.bitmap ≡ false → 0 < p.total_frames) → Inv (reserve_zero p)
unfolding reserve_zero
reserve_zero-Inv p v tracked = elim (Bool-cases (bitmap_test 0 p.bitmap)) [
  | inl used ↦ rw used v
  | inr free ↦ rw free (take-Inv p 0 p.refcounts v free (tracked free) (λ j o. refl) (v.narrow 0))
]

free_loop-refcounts :
    (rounds frame : ℕ) (p : Pmm) → (free_loop rounds frame p).refcounts ≡ p.refcounts
unfolding free_loop
free_loop-refcounts zero frame p = refl
free_loop-refcounts (suc r) frame p = free_loop-refcounts r (frame + 1) (give_frame frame p)

free_regions-refcounts :
    (rs : List MemoryRegion) (p : Pmm) → (free_regions rs p).refcounts ≡ p.refcounts
unfolding free_regions
free_regions-refcounts [] p = refl
free_regions-refcounts (r ∷ rs) p =
    free_regions-refcounts rs (freed r p)
    ∙ free_loop-refcounts (min (end_frame r) p.total_frames - start_frame r) (start_frame r) p

-- From the zeroed statics, `init` establishes the allocator's invariant and reserves frame 0, if no
-- frame lies in the rounded ranges of two usable regions of the memory map.
pub init-Inv :
    (memory_map : List MemoryRegion)
    → DisjointFrames (usable_regions memory_map)
    → Inv (init memory_map bss) × (bitmap_test 0 (init memory_map bss).bitmap ≡ true)
init-Inv memory_map apart = (
  rw (init_lem memory_map bss) (
      reserve_zero-Inv (free_regions rs start) regions (λ free. ground (
        arith,
        free_regions-bits rs 0 start full-IsBytes,
        free_regions-total rs start,
        bitmap_test_full 0,
      ))),
  ground (arith, init-free memory_map bss 0),
)
  where
    start : Pmm
    start = all_used memory_map bss

    rs : List MemoryRegion
    rs = usable_regions memory_map

    small : start.total_frames ≤ max_frames
    small = max_frames-ge (max_addr 0 memory_map)

    regions : Inv (free_regions rs start)
    regions = record {
      bytes = free_regions-IsBytes rs start full-IsBytes;
      counted =
          free_regions-Counted rs start full-IsBytes small apart (λ j lt cov. bitmap_test_full j)
            (sym (count_free_zero (λ _. 255) start.total_frames (λ i lt. bitmap_test_full i)));
      bounded = rw (free_regions-total rs start) small;
      unowned = λ i e. rw (free_regions-refcounts rs start);
      narrow = λ i. rw (free_regions-refcounts rs start) (omega arith);
    }
