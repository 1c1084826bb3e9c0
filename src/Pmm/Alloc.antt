-- ===== src/Pmm/Alloc.antt =====
-- `alloc_frame` of indo-kernel/src/memory/pmm.rs against its description: first fit.
use indominus_os.Prelude.{
  ℕ, zero, suc, ◌+◌, ◌-◌, ◌*◌, ◌/◌, ◌%◌, ◌≡◌, ◌<◌, ◌≤◌, ◌⊎◌, ◌↔◌, refl, ◌∙◌, inl, inr, true, false,
  Option, none, some, ok, err, arith, page_size, Bool-cases, update, ◌==◌,
}
use indominus_os.Pmm.Bits.{
  bitmap_test, bitmap_set-IsBytes, count_free-le, count_free_pos, count_free_zero, bitmap_test-set,
  bitmap_test-clear,
}
use indominus_os.Pmm.{Pmm, take_frame, give_frame, alloc_loop, alloc_frame, free_frame, double_free}
use indominus_os.Pmm.Invariant.{Inv}

-- No frame in the range is free, or the result is the first one that is.
abbrev pub FirstFit : ℕ → ℕ → Pmm → Option (ℕ × Pmm) → Type 0
FirstFit lo hi p r =
    (((j : ℕ) → lo ≤ j → j < hi → bitmap_test j p.bitmap ≡ true) × (r ≡ none))
    ⊎ ((i : ℕ) × (lo ≤ i)
        × (i < hi)
        × (bitmap_test i p.bitmap ≡ false)
        × ((j : ℕ) → lo ≤ j → j < i → bitmap_test j p.bitmap ≡ true)
        × (r
            ≡ some (i * page_size, record (take_frame i p) { refcounts = update p.refcounts i 1 })))

alloc_loop-FirstFit :
    (rounds index hi : ℕ) (p : Pmm)
    → rounds + index ≡ hi
    → FirstFit index hi p (alloc_loop rounds index p)
unfolding alloc_loop
alloc_loop-FirstFit zero index hi p e = inl (λ j lo lt. absurd (omega arith), refl)
alloc_loop-FirstFit (suc r) index hi p e = elim (Bool-cases (bitmap_test index p.bitmap)) [
  | inr free ↦ inr (
    index,
    omega arith,
    omega arith,
    free,
    λ j lo lt. absurd (omega arith),
    rw (free, alloc_loop),
  )
  | inl used ↦ elim (alloc_loop-FirstFit r (index + 1) hi p (omega arith)) [
    | inl (full, none_left) ↦
        inl (λ j lo lt. from_next hi used full j lo lt, rw (used, alloc_loop) none_left)
    | inr (i, lo, lt, free, before, found) ↦ inr (
      i,
      omega arith,
      lt,
      free,
      λ j lo' lt'. from_next i used before j lo' lt',
      rw (used, alloc_loop) found,
    )
  ]
]
  where
    from_next :
        (end : ℕ)
        → bitmap_test index p.bitmap ≡ true
        → ((j : ℕ) → index + 1 ≤ j → j < end → bitmap_test j p.bitmap ≡ true)
        → (j : ℕ) → index ≤ j
        → j < end
        → bitmap_test j p.bitmap ≡ true
    from_next end used rest j lo lt = elim (Bool-cases (index == j)) [
      | inl self ↦ let e' : index ≡ j = ground arith in rw e' at used
      | inr other ↦ rest j (ground arith) lt
    ]

-- `alloc_frame` returns the address of the lowest free frame above frame 0, marks it used with
-- reference count 1 and takes one from the count of free frames; it returns nothing exactly when
-- every tracked frame above frame 0 is used.
pub alloc_frame-FirstFit : (p : Pmm) → FirstFit 1 p.total_frames p (alloc_frame p)
unfolding alloc_frame
alloc_frame-FirstFit p = elim (Bool-cases (p.total_frames == 0)) [
  | inl untracked ↦
      let no_rounds : p.total_frames - 1 ≡ 0 = ground arith in
      inl (λ j lo lt. absurd (ground arith), rw (no_rounds, alloc_loop))
  | inr tracked ↦ alloc_loop-FirstFit (p.total_frames - 1) 1 p.total_frames p (ground arith)
]

-- With frame 0 reserved and the invariant, an allocation fails exactly when the count of free frames
-- is zero.
pub alloc_frame-none :
    (p : Pmm) → Inv p → bitmap_test 0 p.bitmap ≡ true → (alloc_frame p ≡ none) ↔ (p.free_frames ≡ 0)
alloc_frame-none p v low = elim (alloc_frame-FirstFit p) [
  | inl (full, none_left) ↦
      (λ e. v.counted ∙ count_free_zero p.bitmap p.total_frames (all_used full), λ e. none_left)
  | inr (i, lo, lt, free, before, found) ↦ (
    λ e. cc (e, found),
    λ e. absurd (omega (arith, v.counted, count_free_pos p.bitmap p.total_frames i lt free)),
  )
]
  where
    all_used :
        ((j : ℕ) → 1 ≤ j → j < p.total_frames → bitmap_test j p.bitmap ≡ true)
        → (j : ℕ) → j < p.total_frames
        → bitmap_test j p.bitmap ≡ true
    all_used full zero lt = low
    all_used full (suc j) lt = full (suc j) (omega arith) lt

-- The same frames are used, with the same counts.
pub record Same (p q : Pmm) : Type 0 where
  pub bits : (j : ℕ) → bitmap_test j p.bitmap ≡ bitmap_test j q.bitmap
  pub counts : (j : ℕ) → p.refcounts j ≡ q.refcounts j
  pub total : p.total_frames ≡ q.total_frames
  pub free : p.free_frames ≡ q.free_frames

abbrev taken : ℕ → Pmm → Pmm
taken i p = record (take_frame i p) { refcounts = update p.refcounts i 1 }

abbrev freed : ℕ → Pmm → Pmm
freed i p = record (give_frame i p) { refcounts = update p.refcounts i 0 }

free_frame-taken :
    (p : Pmm) (i : ℕ)
    → Inv p
    → 0 < i
    → i < p.total_frames
    → free_frame (i * page_size) (taken i p) ≡ ok (freed i (taken i p))
unfolding free_frame
free_frame-taken p i v pos lt =
    let index : i * page_size / page_size ≡ i = omega arith in
    let aligned : i * page_size % page_size ≡ 0 = omega arith in
    rw (index, aligned) (ground (arith, bitmap_test-set i p.bitmap v.bytes i))

Same-freed :
    (p : Pmm) (i : ℕ)
    → Inv p
    → i < p.total_frames
    → bitmap_test i p.bitmap ≡ false
    → Same (freed i (taken i p)) p
Same-freed p i v lt free = record {
  bits = λ j. ground (
    arith,
    bitmap_test-clear i (taken i p).bitmap (bitmap_set-IsBytes i p.bitmap v.bytes) j,
    bitmap_test-set i p.bitmap v.bytes j,
  );
  counts = λ j. ground (arith, v.unowned i free);
  total = refl;
  free = omega (
    arith,
    v.counted,
    v.bounded,
    count_free-le p.bitmap p.total_frames,
    count_free_pos p.bitmap p.total_frames i lt free,
  );
}

-- Freeing a frame that was just allocated succeeds and brings back every bit, every reference count
-- and the count of free frames.
pub free_frame-alloc_frame :
    (p : Pmm) (a : ℕ) (q : Pmm)
    → Inv p
    → alloc_frame p ≡ some (a, q)
    → (r : Pmm) × (free_frame a q ≡ ok r) × Same r p
free_frame-alloc_frame p a q v e = elim (alloc_frame-FirstFit p) [
  | inl (full, none_left) ↦ absurd (cc (e, none_left))
  | inr (i, lo, lt, free, before, found) ↦
      let address : i * page_size ≡ a = ground arith in
      let state : taken i p ≡ q = ground arith in
      let done : free_frame a q ≡ ok (freed i (taken i p)) =
        rw (← address, ← state) (free_frame-taken p i v lo lt) in
      (freed i (taken i p), done, Same-freed p i v lt free)
]

-- Freeing the same frame twice panics as a double free.
pub free_frame_twice :
    (frame : ℕ) (p q : Pmm)
    → Inv p
    → free_frame frame p ≡ ok q
    → free_frame frame q ≡ err double_free
unfolding free_frame
free_frame_twice frame p q v e =
    ground (arith, bitmap_test-clear (frame / page_size) p.bitmap v.bytes (frame / page_size))
