-- ===== src/Pmm/Calls/Exclusive.antt =====
-- Frames in use across a sequence of calls.
use indominus_os.Prelude.{
  ℕ, zero, suc, ◌+◌, ◌*◌, ◌-◌, ◌/◌, ◌≡◌, ◌≢◌, refl, ap, true, not, ◌&&◌, some, List, [], ◌∷◌, ok,
  bind-eq-ok, arith, All, ltb, page_size, Bool-cases, inl, inr, wrapping_add,
}
use indominus_os.Pmm.Bits.{bitmap_test, bitmap_test-set, bitmap_test-clear}
use indominus_os.Pmm.{
  Pmm, alloc_frame, free_frame, incref, decref, mark_loop, mark_region_used, take_frame,
}
use indominus_os.Pmm.Invariant.{Inv, take-Inv}
use indominus_os.Pmm.Alloc.{alloc_frame-FirstFit}
use indominus_os.Pmm.Calls.{Call, alloc, free, share, release, mark, call, calls, call-Inv}

-- The call gives back no claim on frame i.
abbrev pub Spares : ℕ → Call → Type 0
Spares i (free frame) = frame / page_size ≢ i
Spares i (release frame) = frame / page_size ≢ i
Spares i _ = Unit

mark_loop_used :
    (rounds frame i : ℕ) (p : Pmm)
    → Inv p
    → bitmap_test i p.bitmap ≡ true
    → bitmap_test i (mark_loop rounds frame p).bitmap ≡ true
unfolding mark_loop
mark_loop_used zero frame i p v used = used
mark_loop_used (suc r) frame i p v used =
    elim (Bool-cases (ltb frame p.total_frames && not (bitmap_test frame p.bitmap))) [
      | inl fresh ↦
          rw (fresh, mark_loop)
            (mark_loop_used r (frame + 1) i (take_frame frame p)
              (take-Inv p frame p.refcounts v (ground arith) (ground arith) (λ j o. refl)
                (v.narrow frame))
              (ground (arith, bitmap_test-set frame p.bitmap v.bytes i)))
      | inr kept ↦ rw (kept, mark_loop) (mark_loop_used r (frame + 1) i p v used)
    ]

call_used :
    (i : ℕ) (c : Call) (p : Pmm) {q : Pmm}
    → Inv p
    → Spares i c
    → bitmap_test i p.bitmap ≡ true
    → call c p ≡ ok q
    → bitmap_test i q.bitmap ≡ true
unfolding call
call_used i alloc p v spares used e = elim (alloc_frame-FirstFit p) [
  | inl (full, none_left) ↦ ground arith
  | inr (j, lo, lt, clear, before, found) ↦ ground (arith, bitmap_test-set j p.bitmap v.bytes i)
]
call_used i (free frame) p v spares used e =
    unfold free_frame in ground (arith, bitmap_test-clear (frame / page_size) p.bitmap v.bytes i)
call_used i (share frame) p v spares used e = unfold incref in ground arith
call_used i (release frame) p v spares used e =
    unfold decref in ground (arith, bitmap_test-clear (frame / page_size) p.bitmap v.bytes i)
call_used i (mark s t) p {q} v spares used e =
    let kept : bitmap_test i (mark_region_used s t p).bitmap ≡ true =
      unfold mark_region_used in
      mark_loop_used (wrapping_add t (page_size - 1) / page_size - s / page_size) (s / page_size) i
        p v used in
    ground arith

alloc_frame-unused :
    (i : ℕ) (q : Pmm) (a : ℕ) (r : Pmm)
    → bitmap_test i q.bitmap ≡ true
    → alloc_frame q ≡ some (a, r)
    → a ≢ i * page_size
alloc_frame-unused i q a r used e same = elim (alloc_frame-FirstFit q) [
  | inl (full, none_left) ↦ cc (e, none_left)
  | inr (j, lo, lt, clear, before, found) ↦
      let address : j * page_size ≡ a = ground arith in
      let frame : j ≡ i = omega arith in
      cc (ap (λ (k : ℕ). bitmap_test k q.bitmap) frame, clear, used)
]

-- A frame in use stays in use over any calls that do not panic and neither free nor release that
-- frame, and an allocation after them returns another frame's address.
pub calls_used :
    (i : ℕ) (cs : List Call) (p : Pmm) (q : Pmm)
    → Inv p
    → bitmap_test i p.bitmap ≡ true
    → All (Spares i) cs
    → calls cs p ≡ ok q
    → (bitmap_test i q.bitmap ≡ true)
      × ((a : ℕ) (r : Pmm) → alloc_frame q ≡ some (a, r) → a ≢ i * page_size)
unfolding calls
calls_used i [] p q v used spared e =
    let same : p ≡ q = ground arith in
    let used' : bitmap_test i q.bitmap ≡ true = rw same at used in
    (used', λ a r found. alloc_frame-unused i q a r used' found)
calls_used i (c ∷ cs) p q v used spared e =
    let (m, first, rest) = bind-eq-ok (call c p) (calls cs) e in
    calls_used i cs m q (call-Inv c p v first) (call_used i c p v spared.0 used first) spared.1 rest
