-- ===== src/Pmm/Invariant.antt =====
-- The invariant of the frame allocator's statics.
use indominus_os.Prelude.{
  ℕ, zero, suc, ◌+◌, ◌-◌, ◌/◌, ◌≡◌, ◌≤◌, ◌<◌, refl, true, false, not, ◌&&◌, some, ok, arith, min,
  ltb, ◌==◌, update, wrapping_add, page_size, Bool-cases, inl, inr,
}
use indominus_os.Pmm.Bits.{
  IsBytes, bitmap_test, count_free, count_free-le, bitmap_set-IsBytes, bitmap_clear-IsBytes,
  bitmap_test-set, bitmap_test-clear, count_free-set, count_free-clear,
}
use indominus_os.Pmm.{
  Pmm, max_frames, take_frame, give_frame, alloc_loop, alloc_frame, free_frame, incref, decref,
  mark_loop, mark_region_used,
}

pub record Inv (p : Pmm) : Type 0 where
  pub bytes : IsBytes p.bitmap
  pub counted : p.free_frames ≡ count_free p.bitmap p.total_frames
  pub bounded : p.total_frames ≤ max_frames
  pub unowned : (i : ℕ) → bitmap_test i p.bitmap ≡ false → p.refcounts i ≡ 0
  pub narrow : (i : ℕ) → p.refcounts i ≤ 255

-- Taking a free frame, whatever becomes of its reference count.
pub take-Inv :
    (p : Pmm) (i : ℕ) (rcs : ℕ → ℕ)
    → Inv p
    → bitmap_test i p.bitmap ≡ false
    → i < p.total_frames
    → ((j : ℕ) → (i == j) ≡ false → rcs j ≡ p.refcounts j)
    → rcs i ≤ 255
    → Inv (record (take_frame i p) { refcounts = rcs })
take-Inv p i rcs v e lt others small = record {
  bytes = bitmap_set-IsBytes i p.bitmap v.bytes;
  counted = omega (
    arith,
    v.counted,
    v.bounded,
    count_free-le p.bitmap p.total_frames,
    count_free-set i p.bitmap v.bytes p.total_frames lt e,
  );
  bounded = v.bounded;
  unowned = λ j h. ground (arith, bitmap_test-set i p.bitmap v.bytes j, v.unowned j, others j);
  narrow = λ j. elim (Bool-cases (i == j)) [
    | inl self ↦ let e' : i ≡ j = ground arith in rw (← e') small
    | inr other ↦ rw (others j other) (v.narrow j)
  ];
}

-- Giving back an allocated frame its count cleared.
give-Inv :
    (p : Pmm) (i : ℕ) (rcs : ℕ → ℕ)
    → Inv p
    → bitmap_test i p.bitmap ≡ true
    → i < p.total_frames
    → ((j : ℕ) → (i == j) ≡ false → rcs j ≡ p.refcounts j)
    → rcs i ≡ 0
    → Inv (record (give_frame i p) { refcounts = rcs })
give-Inv p i rcs v e lt others cleared = record {
  bytes = bitmap_clear-IsBytes i p.bitmap v.bytes;
  counted = omega (
    arith,
    v.counted,
    v.bounded,
    count_free-le p.bitmap p.total_frames,
    count_free-clear i p.bitmap v.bytes p.total_frames lt e,
  );
  bounded = v.bounded;
  unowned = λ j h. elim (Bool-cases (i == j)) [
    | inl self ↦ let e' : i ≡ j = ground arith in rw (← e') cleared
    | inr other ↦
        rw (others j other) (v.unowned j (ground (arith, bitmap_test-clear i p.bitmap v.bytes j)))
  ];
  narrow = λ j. elim (Bool-cases (i == j)) [
    | inl self ↦ let e' : i ≡ j = ground arith in rw (← e') (omega arith)
    | inr other ↦ rw (others j other) (v.narrow j)
  ];
}

count-Inv :
    (p : Pmm) (i rc : ℕ)
    → Inv p
    → bitmap_test i p.bitmap ≡ true
    → rc ≤ 255
    → Inv (record p { refcounts = update p.refcounts i rc })
count-Inv p i rc v e small = record {
  bytes = v.bytes;
  counted = v.counted;
  bounded = v.bounded;
  unowned = λ j h. ground (arith, v.unowned j h);
  narrow = λ j. ground (arith, v.narrow j);
}

alloc_loop-Inv :
    (rounds index : ℕ) (p : Pmm) (a : ℕ) {q : Pmm}
    → Inv p
    → rounds + index ≤ p.total_frames
    → alloc_loop rounds index p ≡ some (a, q)
    → Inv q
unfolding alloc_loop
alloc_loop-Inv zero index p a v h e = cc
alloc_loop-Inv (suc r) index p a {q} v h e = elim (Bool-cases (bitmap_test index p.bitmap)) [
  | inl used ↦ alloc_loop-Inv r (index + 1) p a v (omega arith) (ground arith)
  | inr free ↦
      let same : record (take_frame index p) { refcounts = update p.refcounts index 1 } ≡ q =
        ground arith in
      rw same at (
        take-Inv p index (update p.refcounts index 1) v free (omega arith) (λ j o. ground arith)
          (ground arith))
]

pub alloc_frame-Inv : (p : Pmm) (a : ℕ) {q : Pmm} → Inv p → alloc_frame p ≡ some (a, q) → Inv q
unfolding alloc_frame alloc_loop
alloc_frame-Inv p a v e = elim (Bool-cases (p.total_frames == 0)) [
  | inl none_tracked ↦ absurd (ground arith)
  | inr some_tracked ↦ alloc_loop-Inv (p.total_frames - 1) 1 p a v (ground arith) e
]

-- What a call that does not panic has checked, and what it leaves.
free_frame_done :
    (frame : ℕ) (p q : Pmm)
    → free_frame frame p ≡ ok q
    → (0 < frame / page_size)
      × (frame / page_size < p.total_frames)
      × (bitmap_test (frame / page_size) p.bitmap ≡ true)
      × (record (give_frame (frame / page_size) p) {
        refcounts = update p.refcounts (frame / page_size) 0;
      }
          ≡ q)
unfolding free_frame
free_frame_done frame p q e = ground arith

pub free_frame-Inv : (frame : ℕ) (p : Pmm) {q : Pmm} → Inv p → free_frame frame p ≡ ok q → Inv q
free_frame-Inv frame p {q} v e =
    let (pos, lt, used, same) = free_frame_done frame p q e in
    rw same at (
      give-Inv p (frame / page_size) (update p.refcounts (frame / page_size) 0) v used lt
        (λ j o. ground arith) (ground arith))

pub incref-Inv : (frame : ℕ) (p : Pmm) {q : Pmm} → Inv p → incref frame p ≡ ok q → Inv q
unfolding incref
incref-Inv frame p {q} v e = elim (Bool-cases (ltb (p.refcounts (frame / page_size)) 255)) [
  | inl small ↦
      let same : record p {
        refcounts =
            update p.refcounts (frame / page_size) (min (p.refcounts (frame / page_size) + 1) 255);
      }
          ≡ q =
        ground arith in
      rw same at (
        count-Inv p (frame / page_size) (min (p.refcounts (frame / page_size) + 1) 255) v
          (ground arith) (omega arith))
  | inr saturated ↦ let same : p ≡ q = ground arith in rw same at v
]

decref_done :
    (frame : ℕ) (p q : Pmm)
    → decref frame p ≡ ok q
    → (frame / page_size < p.total_frames)
      × (bitmap_test (frame / page_size) p.bitmap ≡ true)
      × (0 < p.refcounts (frame / page_size))
unfolding decref
decref_done frame p q e = ground arith

pub decref-Inv : (frame : ℕ) (p : Pmm) {q : Pmm} → Inv p → decref frame p ≡ ok q → Inv q
unfolding decref
decref-Inv frame p {q} v e =
    let i = frame / page_size in
    let rcs = update p.refcounts i (p.refcounts i - 1) in
    let (lt, used, pos) = decref_done frame p q e in
    elim (Bool-cases (p.refcounts i - 1 == 0)) [
      | inl last ↦
          let same : record (give_frame i p) { refcounts = rcs } ≡ q = ground arith in
          rw same at (give-Inv p i rcs v used lt (λ j o. ground arith) (ground arith))
      | inr shared ↦
          let same : record p { refcounts = rcs } ≡ q = ground arith in
          rw same at (count-Inv p i (p.refcounts i - 1) v used (omega (arith, v.narrow i)))
    ]

pub mark_loop-Inv : (rounds frame : ℕ) (p : Pmm) → Inv p → Inv (mark_loop rounds frame p)
unfolding mark_loop
mark_loop-Inv zero frame p v = v
mark_loop-Inv (suc r) frame p v =
    elim (Bool-cases (ltb frame p.total_frames && not (bitmap_test frame p.bitmap))) [
      | inl fresh ↦ rw fresh (
          mark_loop-Inv r (frame + 1) (take_frame frame p) (
            take-Inv p frame p.refcounts v (ground arith) (ground arith) (λ j o. refl)
              (v.narrow frame)))
      | inr kept ↦ rw kept (mark_loop-Inv r (frame + 1) p v)
    ]

pub mark_region_used-Inv : (s e : ℕ) (p : Pmm) → Inv p → Inv (mark_region_used s e p)
unfolding mark_region_used
mark_region_used-Inv s e p v =
    mark_loop-Inv (wrapping_add e (page_size - 1) / page_size - s / page_size) (s / page_size) p v
