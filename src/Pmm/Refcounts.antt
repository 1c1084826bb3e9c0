-- ===== src/Pmm/Refcounts.antt =====
-- Shared frames: `incref` and `decref` of indo-kernel/src/memory/pmm.rs.
use indominus_os.Prelude.{
  ℕ, zero, suc, ◌+◌, ◌-◌, ◌*◌, ◌/◌, ◌%◌, ◌≡◌, ◌<◌, refl, true, ok, err, ◌>>=◌, arith, page_size,
  update, fun_ext, ap, sym, ◌∙◌, min,
}
use indominus_os.Pmm.Bits.{bitmap_test}
use indominus_os.Pmm.{
  Pmm, Checked, incref, decref, free_frame, give_frame, refcount_zero, bad_refcount,
}

-- One holder after another lets go.
unfoldable pub decref_times : ℕ → ℕ → Pmm → Checked Pmm
decref_times zero frame p = ok p
decref_times (suc n) frame p = do q ← decref frame p; decref_times n frame q

-- The state with n holders of the frame left.
abbrev pub held : ℕ → ℕ → Pmm → Pmm
held i n p = record p { refcounts = update p.refcounts i n }

update-update : (a : ℕ → ℕ) (i v w : ℕ) → update (update a i v) i w ≡ update a i w
update-update a i v w = fun_ext λ j. ground arith

update_same : (a : ℕ → ℕ) (i v : ℕ) → a i ≡ v → update a i v ≡ a
update_same a i v e = fun_ext λ j. ground arith

held_same : (i n : ℕ) (p : Pmm) → p.refcounts i ≡ n → held i n p ≡ p
held_same i n p e =
    ap (λ (rcs : ℕ → ℕ). record p { refcounts = rcs }) (update_same p.refcounts i n e)

incref-held :
    (frame : ℕ) (p q : Pmm)
    → p.refcounts (frame / page_size) < 255
    → incref frame p ≡ ok q
    → (frame / page_size < p.total_frames)
      × (bitmap_test (frame / page_size) p.bitmap ≡ true)
      × (held (frame / page_size) (p.refcounts (frame / page_size) + 1) p ≡ q)
unfolding incref
incref-held frame p q small e =
    let unsaturated : min (p.refcounts (frame / page_size) + 1) 255
        ≡ p.refcounts (frame / page_size) + 1 =
      omega arith in
    ground arith

module _ (frame : ℕ) (p : Pmm) (lt : frame / page_size < p.total_frames)
    (used : bitmap_test (frame / page_size) p.bitmap ≡ true) where
  decref-held :
      (n : ℕ)
      → decref frame (held (frame / page_size) (suc (suc n)) p)
        ≡ ok (held (frame / page_size) (suc n) p)
  unfolding decref
  decref-held n =
      ground (arith, update-update p.refcounts (frame / page_size) (suc (suc n)) (suc n))

  decref-held_last :
      decref frame (held (frame / page_size) 1 p)
      ≡ ok (give_frame (frame / page_size) (held (frame / page_size) 0 p))
  unfolding decref
  decref-held_last = ground (arith, update-update p.refcounts (frame / page_size) 1 0)

  decref_times-held :
      (n : ℕ)
      → decref_times n frame (held (frame / page_size) (suc n) p)
        ≡ ok (held (frame / page_size) 1 p)
  unfolding decref_times
  decref_times-held zero = refl
  decref_times-held (suc n) = rw (decref-held n) (decref_times-held n)

  decref_times-held_last :
      (n : ℕ)
      → decref_times (suc n) frame (held (frame / page_size) (suc n) p)
        ≡ ok (give_frame (frame / page_size) (held (frame / page_size) 0 p))
  unfolding decref_times
  decref_times-held_last zero = rw decref-held_last
  decref_times-held_last (suc n) = rw (decref-held n) (decref_times-held_last n)

  -- An allocated frame in range with n + 1 recorded holders: n calls of `decref` leave it allocated
  -- with one holder and touch nothing else, and the call after them frees it.
  pub decref_until_free :
      (n : ℕ)
      → p.refcounts (frame / page_size) ≡ suc n
      → (decref_times n frame p ≡ ok (held (frame / page_size) 1 p))
        × (decref_times (suc n) frame p
            ≡ ok (give_frame (frame / page_size) (held (frame / page_size) 0 p)))
  decref_until_free n e =
      let whole : held (frame / page_size) (suc n) p ≡ p =
        held_same (frame / page_size) (suc n) p e in
      (
        ap (decref_times n frame) (sym whole) ∙ decref_times-held n,
        ap (decref_times (suc n) frame) (sym whole) ∙ decref_times-held_last n,
      )

-- Below the limit of 255, a holder of an allocated frame that comes and goes leaves the allocator as
-- it was.
pub decref-incref :
    (frame : ℕ) (p q : Pmm)
    → 0 < p.refcounts (frame / page_size)
    → p.refcounts (frame / page_size) < 255
    → incref frame p ≡ ok q
    → decref frame q ≡ ok p
decref-incref frame p q pos small e =
    let i = frame / page_size in
    let n = p.refcounts i - 1 in
    let one_more : p.refcounts i + 1 ≡ suc (suc n) = omega arith in
    let before : p.refcounts i ≡ suc n = omega arith in
    let (lt, used, state) = incref-held frame p q small e in
    let step : decref frame (held i (p.refcounts i + 1) p) ≡ ok (held i (suc n) p) =
      ap (λ (m : ℕ). decref frame (held i m p)) one_more ∙ decref-held frame p lt used n in
    ap (decref frame) (sym state) ∙ step ∙ ap ok (held_same i (suc n) p before)

-- At 255 holders the count is full: `incref` succeeds and records nothing, so that the 256 holders'
-- frame is freed by the 255th call of `decref`.
pub incref_saturated :
    (frame : ℕ) (p : Pmm)
    → frame / page_size < p.total_frames
    → bitmap_test (frame / page_size) p.bitmap ≡ true
    → p.refcounts (frame / page_size) ≡ 255
    → (incref frame p ≡ ok p)
      × (decref_times 255 frame p
          ≡ ok (give_frame (frame / page_size) (held (frame / page_size) 0 p)))
unfolding incref
incref_saturated frame p lt used full =
    (ground arith, (decref_until_free frame p lt used 254 full).1)

-- A frame that is marked used with reference count 0, as `init` and `mark_region_used` leave it, is
-- refused by `decref`, and by `free_frame` at its address; but after one `incref` a `decref` frees it.
pub reserved_refused :
    (i : ℕ) (p : Pmm)
    → 0 < i
    → i < p.total_frames
    → bitmap_test i p.bitmap ≡ true
    → p.refcounts i ≡ 0
    → (decref (i * page_size) p ≡ err refcount_zero)
      × (free_frame (i * page_size) p ≡ err bad_refcount)
      × ((incref (i * page_size) p >>= decref (i * page_size)) ≡ ok (give_frame i (held i 0 p)))
unfolding incref decref free_frame
reserved_refused i p pos lt used none_held =
    let index : i * page_size / page_size ≡ i = omega arith in
    let aligned : i * page_size % page_size ≡ 0 = omega arith in
    let one : min (p.refcounts i + 1) 255 ≡ 1 = omega arith in
    (
      rw index (ground arith),
      rw (index, aligned) (ground arith),
      rw (index, one) (ground (arith, update-update p.refcounts i 1 0)),
    )
