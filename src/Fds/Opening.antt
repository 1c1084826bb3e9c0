-- ===== src/Fds/Opening.antt =====
-- The reference counts over `sys_pipe`, and over any calls.
use indominus_os.Prelude.{
  ℕ, ◌+◌, ◌-◌, ◌^◌, ◌<◌, ◌≡◌, ◌≢◌, refl, ap, sym, ◌∙◌, subst, fun_ext, inl, inr, true, false,
  Option, none, some, List, [], ◌∷◌, ltb, ◌==◌, update, arith, Bool-cases, either_way,
}
use indominus_os.Pipe.{new}
use indominus_os.Pipe.Table.{Pipes, max_pipes, alloc_pipe_lem, free_pipe}
use indominus_os.Fds.{
  FdType, pipe_end, FdTable, World, max_fds, emfile, is_closed, find_free, with_second, second_free,
  with_pipe_ends, install_pipe, pipe_for, at_pipe_limit, sys_pipe, sys_close, sys_dup, sys_dup2,
}
use indominus_os.Fds.Ends.{is_end, ends_below, ends_below-update, is_end-closed, find_free-closed}
use indominus_os.Fds.Counts.{Agree, CountedBy, is_end_self, is_end_other}
use indominus_os.Fds.Calls.{types_of, Counted, sys_close-Counted, sys_dup-Counted}
use indominus_os.Fds.Replacing.{sys_dup2-Counted}

-- Two descriptors that are found are closed and different.
second_free-closed :
    (fds : ℕ → FdType) (r w : ℕ)
    → second_free (find_free max_fds 0 fds) fds ≡ some (r, w)
    → (r < w) × (w < max_fds) × (is_closed (fds r) ≡ true) × (is_closed (fds w) ≡ true)
second_free-closed fds r w h = first (find_free max_fds 0 fds) refl h
  where
    second :
        (i : ℕ) (o : Option ℕ)
        → find_free max_fds 0 fds ≡ some i
        → find_free (max_fds - (i + 1)) (i + 1) fds ≡ o
        → with_second i o ≡ some (r, w)
        → (r < w) × (w < max_fds) × (is_closed (fds r) ≡ true) × (is_closed (fds w) ≡ true)
    second i none e e' found = cc
    second i (some j) e e' found =
        let is_r : i ≡ r = cc in
        let is_w : j ≡ w = cc in
        let (_, i_low, i_free) = find_free-closed max_fds 0 fds i e in
        let (after, j_low, j_free) = find_free-closed (max_fds - (i + 1)) (i + 1) fds j e' in
        (
          omega (arith, after, is_r, is_w),
          omega (arith, i_low, j_low, is_w),
          ap (λ k. is_closed (fds k)) (sym is_r) ∙ i_free,
          ap (λ k. is_closed (fds k)) (sym is_w) ∙ j_free,
        )

    first :
        (o : Option ℕ)
        → find_free max_fds 0 fds ≡ o
        → second_free o fds ≡ some (r, w)
        → (r < w) × (w < max_fds) × (is_closed (fds r) ≡ true) × (is_closed (fds w) ≡ true)
    first none e found = cc
    first (some i) e found = second i (find_free (max_fds - (i + 1)) (i + 1) fds) e refl found

module _ (others : ℕ → ℕ) (world : World) (counted : Counted others world) (k : ℕ) (pipes' : Pipes)
    (low : k < max_pipes) (empty : world.pipes k ≡ none) (fresh : pipes' k ≡ some new)
    (back : (j : ℕ) → free_pipe k pipes' j ≡ world.pipes j) where
  freed : CountedBy others (types_of world.current_fds) (free_pipe k pipes')
  freed = subst (CountedBy others (types_of world.current_fds)) (sym (fun_ext back)) counted

  elsewhere : (j : ℕ) → k ≢ j → pipes' j ≡ world.pipes j
  unfolding free_pipe
  elsewhere j away =
      let inside : ltb k max_pipes ≡ true = ground (arith, low) in
      let other : (k == j) ≡ false = ground (arith, away) in
      let cleared : free_pipe k pipes' j ≡ pipes' j = rw inside (rw other refl) in
      sym cleared ∙ back j

  -- Both ends of a new pipe.
  both_ends :
      (t : FdTable) (r w : ℕ)
      → CountedBy others t.fd_types world.pipes
      → r < w
      → w < max_fds
      → is_closed (t.fd_types r) ≡ true
      → is_closed (t.fd_types w) ≡ true
      → CountedBy others (with_pipe_ends k r w t).fd_types pipes'
  both_ends t r w at_t less below r_free w_free j inside = elim (Bool-cases (k == j)) [
    | inl here ↦
        let e : k ≡ j = ground (arith, here) in
        subst (λ i. Agree (pipes' i) (ends_below max_fds i after + others i)) e
          (subst (λ o. Agree o (ends_below max_fds k after + others k)) (sym fresh)
            (two, omega (arith, two)))
    | inr other ↦
        let away : k ≢ j = ground (arith, other) in
        let same : ends_below max_fds j after ≡ ends_below max_fds j t.fd_types =
          omega (arith, counts j, is_end_other k j false away, is_end_other k j true away) in
        subst (λ o. Agree o (ends_below max_fds j after + others j)) (sym (elsewhere j away))
          (subst (λ n. Agree (world.pipes j) (n + others j)) (sym same) (at_t j inside))
  ]
    where
      one : ℕ → FdType
      one = update t.fd_types r (pipe_end k false)

      after : ℕ → FdType
      after = update one w (pipe_end k true)

      still_free : is_closed (one w) ≡ true
      still_free =
          let other : (r == w) ≡ false = ground (arith, less) in
          let same : one w ≡ t.fd_types w = rw other refl in ap is_closed same ∙ w_free

      counts :
          (j : ℕ)
          → ends_below max_fds j after
            ≡ ends_below max_fds j t.fd_types
              + is_end j (pipe_end k false)
              + is_end j (pipe_end k true)
      counts j = omega (
        arith,
        ends_below-update max_fds j t.fd_types r (pipe_end k false) (omega (arith, less, below)),
        ends_below-update max_fds j one w (pipe_end k true) below,
        is_end-closed j (t.fd_types r) r_free,
        is_end-closed j (one w) still_free,
      )

      two : 2 ≡ ends_below max_fds k after + others k
      two =
          let nothing : ends_below max_fds k t.fd_types + others k ≡ 0 =
            subst (λ o. Agree o (ends_below max_fds k t.fd_types + others k)) empty (at_t k low) in
          omega (arith, counts k, nothing, is_end_self k false, is_end_self k true)

  installed :
      (t : FdTable) (o : Option (ℕ × ℕ))
      → world.current_fds ≡ some t
      → second_free (find_free max_fds 0 t.fd_types) t.fd_types ≡ o
      → Counted others (install_pipe o k t (record world { pipes = pipes' })).1
  installed t none now h = freed
  installed t (some (r, w)) now h =
      let at_t = subst (λ f. CountedBy others (types_of f) world.pipes) now counted in
      let (less, below, r_free, w_free) = second_free-closed t.fd_types r w h in
      both_ends t r w at_t less below r_free w_free

  pipe_for-Counted :
      (fds : Option FdTable)
      → world.current_fds ≡ fds
      → Counted others (pipe_for fds (some (k, pipes')) world).1
  pipe_for-Counted none now = freed
  pipe_for-Counted (some t) now =
      installed t (second_free (find_free max_fds 0 t.fd_types) t.fd_types) now refl

pub sys_pipe-Counted :
    (others : ℕ → ℕ) (world : World) → Counted others world → Counted others (sys_pipe world).1
unfolding sys_pipe
sys_pipe-Counted others world counted =
    either_way (λ (r : ℕ × World). Counted others r.1) (at_pipe_limit world.current_fds) counted
      (elim (alloc_pipe_lem world.pipes) [
        | inl (nothing, _) ↦ rw nothing counted
        | inr (k, pipes', found, low, empty, fresh, back) ↦ rw found (
            pipe_for-Counted others world counted k pipes' low empty fresh back world.current_fds
              refl)
      ])

pub data Call : Type 0 where
  opens_pipe : Call
  closes : ℕ → Call
  dups : ℕ → Call
  dups_to : ℕ → ℕ → Call

abbrev pub call : Call → World → ℕ × World
call opens_pipe world = sys_pipe world
call (closes fd) world = sys_close fd world
call (dups fd) world = sys_dup fd world
call (dups_to oldfd newfd) world = sys_dup2 oldfd newfd world

abbrev pub run : List Call → World → World
run [] world = world
run (c ∷ calls) world = run calls (call c world).1

-- No `sys_dup` among the calls finds the table full.
abbrev pub NoneFull : List Call → World → Type 0
NoneFull [] world = Unit
NoneFull (dups fd ∷ calls) world =
    ((sys_dup fd world).0 ≢ emfile) × NoneFull calls (sys_dup fd world).1
NoneFull (c ∷ calls) world = NoneFull calls (call c world).1

-- Over any calls of `sys_pipe`, `sys_close`, `sys_dup` and `sys_dup2` by the current process, errors
-- included, the count of every pipe stays the number of the descriptors that are its ends, and a pipe
-- without ends is gone; if this holds before, no `sys_dup` among them finds the table full, and the
-- ends that other processes have, with the table's, fit into the 16-bit counter.
pub calls-Counted :
    (others : ℕ → ℕ) (calls : List Call) (world : World)
    → ((idx : ℕ) → others idx + max_fds + 1 < 2 ^ 16)
    → NoneFull calls world
    → Counted others world
    → Counted others (run calls world)
calls-Counted others [] world small full counted = counted
calls-Counted others (opens_pipe ∷ calls) world small full counted =
    calls-Counted others calls (sys_pipe world).1 small full (sys_pipe-Counted others world counted)
calls-Counted others (closes fd ∷ calls) world small full counted =
    calls-Counted others calls (sys_close fd world).1 small full
      (sys_close-Counted others fd world counted)
calls-Counted others (dups fd ∷ calls) world small (placed, full) counted =
    calls-Counted others calls (sys_dup fd world).1 small full
      (sys_dup-Counted others fd world counted small placed)
calls-Counted others (dups_to oldfd newfd ∷ calls) world small full counted =
    calls-Counted others calls (sys_dup2 oldfd newfd world).1 small full
      (sys_dup2-Counted others small world counted oldfd newfd)
