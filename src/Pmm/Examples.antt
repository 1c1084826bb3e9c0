-- ===== src/Pmm/Examples.antt =====
-- The frame allocator of indo-kernel/src/memory/pmm.rs on a machine of four frames.
use indominus_os.Prelude.{
  ℕ, ◌≡◌, ◌≢◌, ◌*◌, ◌<◌, ◌↔◌, refl, true, false, Option, none, some, List, [], ◌∷◌, ok, err, ◌>>=◌,
  arith, page_size, update,
}
use indominus_os.Pmm.Bits.{bitmap_test, bitmap_set, bitmap_clear}
use indominus_os.Pmm.{
  Pmm, Checked, bss, max_frames, alloc_frame, free_frame, incref, decref, give_frame, bad_refcount,
  refcount_zero, mark_region_used,
}
use indominus_os.Pmm.Init.{MemoryRegion, usable, mmio, init}
use indominus_os.Pmm.Init.Boot.{covered}
use indominus_os.Pmm.Init.Map.{MeetsUsable, init-MeetsUsable}
use indominus_os.Pmm.Init.Count.{init-Inv}
use indominus_os.Pmm.Invariant.{Inv}
use indominus_os.Pmm.Alloc.{FirstFit, alloc_frame-FirstFit, free_frame-alloc_frame, Same}
use indominus_os.Pmm.Refcounts.{
  decref_times, held, decref-incref, incref_saturated, reserved_refused,
}
use indominus_os.Pmm.Calls.{Call, alloc, share, release, mark, calls, calls-Inv}
use indominus_os.Pmm.Calls.Exclusive.{calls_used}

abbrev small_map : List MemoryRegion
small_map =
    record { start = 0; length = 16384; kind = usable }
    ∷ record { start = 16384; length = 4096; kind = mmio }
    ∷ []

abbrev booted : Pmm
booted = init small_map bss

abbrev from_ok : Checked Pmm → Pmm
from_ok (ok p) = p
from_ok (err e) = bss

abbrev from_some : Option (ℕ × Pmm) → Pmm
from_some (some (a, p)) = p
from_some none = bss

init-Inv_example : Inv booted × (bitmap_test 0 booted.bitmap ≡ true)
unfolding init covered
init-Inv_example = init-Inv small_map (λ j lo hi. refl, tt)

abbrev script : List Call
script = alloc ∷ share 4096 ∷ release 4096 ∷ mark 8192 12288 ∷ []

calls-Inv_example : Inv (from_ok (calls script booted))
unfolding calls init alloc_frame incref decref mark_region_used bitmap_test bitmap_set bitmap_clear
calls-Inv_example = calls-Inv script booted init-Inv_example.0 refl

-- Frame 1 is in use.
abbrev one_taken : Pmm
one_taken = from_some (alloc_frame booted)

calls_used_example :
    (bitmap_test 1 (from_ok (calls (mark 8192 12288 ∷ alloc ∷ []) one_taken)).bitmap ≡ true)
    × ((a : ℕ) (r : Pmm)
        → alloc_frame (from_ok (calls (mark 8192 12288 ∷ alloc ∷ []) one_taken)) ≡ some (a, r)
        → a ≢ 1 * page_size)
unfolding calls init alloc_frame mark_region_used bitmap_test bitmap_set bitmap_clear
calls_used_example =
    calls_used 1 (mark 8192 12288 ∷ alloc ∷ []) one_taken
      (from_ok (calls (mark 8192 12288 ∷ alloc ∷ []) one_taken))
      (calls-Inv (alloc ∷ []) booted init-Inv_example.0 refl) refl (tt, (tt, tt)) refl

free_frame-alloc_frame_example : (r : Pmm) × (free_frame 4096 one_taken ≡ ok r) × Same r booted
unfolding init alloc_frame bitmap_test bitmap_set bitmap_clear
free_frame-alloc_frame_example =
    free_frame-alloc_frame booted 4096 one_taken init-Inv_example.0 refl

-- Frame 1 has three holders, or as many as the count can record.
abbrev shared : ℕ → Pmm
shared n = record one_taken { refcounts = update one_taken.refcounts 1 n }

decref-incref_example : decref 4096 (from_ok (incref 4096 (shared 3))) ≡ ok (shared 3)
unfolding init alloc_frame incref bitmap_test bitmap_set bitmap_clear
decref-incref_example =
    decref-incref 4096 (shared 3) (from_ok (incref 4096 (shared 3))) (omega arith) (omega arith)
      refl

incref_saturated_example :
    (incref 4096 (shared 255) ≡ ok (shared 255))
    × (decref_times 255 4096 (shared 255) ≡ ok (give_frame 1 (held 1 0 (shared 255))))
unfolding init alloc_frame bitmap_test bitmap_set bitmap_clear
incref_saturated_example = incref_saturated 4096 (shared 255) (omega arith) refl refl

reserved_refused_example :
    (decref (1 * page_size) (shared 0) ≡ err refcount_zero)
    × (free_frame (1 * page_size) (shared 0) ≡ err bad_refcount)
    × ((incref (1 * page_size) (shared 0) >>= decref (1 * page_size))
        ≡ ok (give_frame 1 (held 1 0 (shared 0))))
unfolding init alloc_frame bitmap_test bitmap_set bitmap_clear
reserved_refused_example = reserved_refused 1 (shared 0) (omega arith) (omega arith) refl refl

alloc_frame-FirstFit_example : FirstFit 1 booted.total_frames booted (alloc_frame booted)
alloc_frame-FirstFit_example = alloc_frame-FirstFit booted

init-MeetsUsable_example :
    (bitmap_test 3 booted.bitmap ≡ false) ↔ ((0 < 3) × (3 < max_frames) × MeetsUsable small_map 3)
init-MeetsUsable_example = init-MeetsUsable small_map bss 3 (omega arith, (omega arith, tt))
