-- ===== src/Pmm/Calls.antt =====
-- Any sequence of calls into the frame allocator, from the rest of the kernel.
pub mod Exclusive
use indominus_os.Prelude.{
  ℕ, ◌+◌, ◌/◌, ◌≡◌, refl, ◌≢◌, ◌<◌, Bool, true, false, Option, none, some, List, [], ◌∷◌, Result,
  ok, err, ◌>>=◌, bind-eq-ok, arith, page_size, All, zero, suc, ◌==◌, Bool-cases, inl, inr, ltb,
  ◌&&◌, not,
}
use indominus_os.Pmm.Bits.{IsBytes, bitmap_test, bitmap_test-set, bitmap_test-clear}
use indominus_os.Pmm.{
  Pmm, Panic, Checked, alloc_loop, alloc_frame, free_frame, incref, decref, mark_loop,
  mark_region_used, take_frame, give_frame,
}
use indominus_os.Pmm.Invariant.{
  Inv, alloc_frame-Inv, free_frame-Inv, incref-Inv, decref-Inv, mark_region_used-Inv,
}

pub data Call : Type 0 where
  alloc : Call
  free share release : ℕ → Call
  mark : ℕ → ℕ → Call

abbrev pub after_alloc : Pmm → Option (ℕ × Pmm) → Pmm
after_alloc p none = p
after_alloc p (some (a, q)) = q

pub call : Call → Pmm → Checked Pmm
call alloc p = ok (after_alloc p (alloc_frame p))
call (free frame) p = free_frame frame p
call (share frame) p = incref frame p
call (release frame) p = decref frame p
call (mark s e) p = ok (mark_region_used s e p)

unfoldable pub calls : List Call → Pmm → Checked Pmm
unfolding call
calls [] p = ok p
calls (c ∷ cs) p = do q ← call c p; calls cs q

after_alloc-Inv :
    (p : Pmm) (r : Option (ℕ × Pmm)) → alloc_frame p ≡ r → Inv p → Inv (after_alloc p r)
after_alloc-Inv p none e v = v
after_alloc-Inv p (some (a, q)) e v = alloc_frame-Inv p a v e

call-Inv : (c : Call) (p : Pmm) {q : Pmm} → Inv p → call c p ≡ ok q → Inv q
unfolding call
call-Inv alloc p {q} v e =
    let same : after_alloc p (alloc_frame p) ≡ q = cc in
    rw same at (after_alloc-Inv p (alloc_frame p) refl v)
call-Inv (free frame) p v e = free_frame-Inv frame p v e
call-Inv (share frame) p v e = incref-Inv frame p v e
call-Inv (release frame) p v e = decref-Inv frame p v e
call-Inv (mark s t) p {q} v e =
    let same : mark_region_used s t p ≡ q = cc in rw same at (mark_region_used-Inv s t p v)

-- After any calls that do not panic, the allocator's invariant holds if it held before: the count of
-- free frames is the number of clear bits, a free frame has reference count 0, every bitmap entry
-- is a byte, every count fits a byte, and no more than 16 GiB of frames are tracked.
pub calls-Inv : (cs : List Call) (p : Pmm) {q : Pmm} → Inv p → calls cs p ≡ ok q → Inv q
unfolding calls
calls-Inv [] p {q} v e = let same : p ≡ q = cc in rw same at v
calls-Inv (c ∷ cs) p v e =
    let (q, first, rest) = bind-eq-ok (call c p) (calls cs) e in
    calls-Inv cs q (call-Inv c p v first) rest
