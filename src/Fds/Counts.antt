-- ===== src/Fds/Counts.antt =====
-- The reference counts of the pipes and the descriptors that are ends of them.
use indominus_os.Prelude.{
  ℕ, suc, ◌+◌, ◌^◌, ◌<◌, ◌≡◌, ◌≢◌, refl, ap, sym, ◌∙◌, subst, inl, inr, Bool, true, false, Option,
  none, some, ltb, ◌==◌, if◌then◌else◌, update, arith, Bool-cases, either_way,
}
use indominus_os.Pipe.{Pipe}
use indominus_os.Pipe.Table.{Pipes, max_pipes}
use indominus_os.Fds.{FdType, closed, pipe_end, max_fds, is_closed, drop_end, add_end, sub_end}
use indominus_os.Fds.Ends.{
  is_end, ends_below, ends_below-update, ends_below-le, is_end-le-ends_below, is_end-closed,
}

-- The count of a pipe is n, and there is no pipe if n is 0.
abbrev pub Agree : Option Pipe → ℕ → Type 0
Agree none n = n ≡ 0
Agree (some p) n = (p.refcount ≡ n) × (0 < n)

pub Agree-drop_end :
    (writable : Bool) (o : Option Pipe) (n : ℕ) → Agree o (suc n) → Agree (drop_end writable o) n
Agree-drop_end writable none n h = absurd (omega (arith, h))
Agree-drop_end writable (some p) n (h, _) = elim (Bool-cases (p.refcount == 1)) [
  | inl last ↦ let e : p.refcount ≡ 1 = ground (arith, last) in rw last (omega (arith, h, e))
  | inr more ↦
      let e : p.refcount ≢ 1 = ground (arith, more) in
      rw more (omega (arith, h), omega (arith, h, e))
]

pub Agree-sub_end :
    (writable : Bool) (o : Option Pipe) (n : ℕ)
    → n < 2 ^ 16
    → Agree o (suc n)
    → Agree (sub_end writable o) n
Agree-sub_end writable none n small h = absurd (omega (arith, h))
Agree-sub_end writable (some p) n small (h, _) = elim (Bool-cases (p.refcount == 1)) [
  | inl last ↦ let e : p.refcount ≡ 1 = ground (arith, last) in rw last (omega (arith, h, e))
  | inr more ↦
      let e : p.refcount ≢ 1 = ground (arith, more) in
      rw more (omega (arith, h, small), omega (arith, h, e))
]

Agree-add_end :
    (o : Option Pipe) (n : ℕ) → 0 < n → suc n < 2 ^ 16 → Agree o n → Agree (add_end o) (suc n)
Agree-add_end none n some_end small h = absurd (omega (arith, some_end, h))
Agree-add_end (some p) n some_end small (h, _) = (omega (arith, h, small), omega arith)

-- Each pipe's count is the number of the table's ends and of the `others`, those of other processes.
abbrev pub CountedBy : (ℕ → ℕ) → (ℕ → FdType) → Pipes → Type 0
CountedBy others fds pipes =
    (idx : ℕ) → idx < max_pipes → Agree (pipes idx) (ends_below max_fds idx fds + others idx)

-- `Pipes` changed at an index, if it is in range.
abbrev pub change_pipe : ℕ → (Option Pipe → Option Pipe) → Pipes → Pipes
change_pipe idx change pipes =
    if ltb idx max_pipes then update pipes idx (change (pipes idx)) else pipes

pub change_pipe-at :
    (idx : ℕ) (change : Option Pipe → Option Pipe) (pipes : Pipes)
    → idx < max_pipes
    → change_pipe idx change pipes idx ≡ change (pipes idx)
change_pipe-at idx change pipes below =
    let inside : ltb idx max_pipes ≡ true = ground (arith, below) in
    let self : (idx == idx) ≡ true = ground arith in rw inside (rw self refl)

change_pipe-away :
    (idx j : ℕ) (change : Option Pipe → Option Pipe) (pipes : Pipes)
    → idx ≢ j
    → change_pipe idx change pipes j ≡ pipes j
change_pipe-away idx j change pipes away =
    let other : (idx == j) ≡ false = ground (arith, away) in
    either_way (λ (changed : Pipes). changed j ≡ pipes j) (ltb idx max_pipes) (rw other refl) refl

pub is_end_self : (idx : ℕ) (writable : Bool) → is_end idx (pipe_end idx writable) ≡ 1
is_end_self idx writable = ground arith

pub is_end_other : (idx j : ℕ) (writable : Bool) → idx ≢ j → is_end j (pipe_end idx writable) ≡ 0
is_end_other idx j writable away = ground (arith, away)

module _ (others : ℕ → ℕ) (fds : ℕ → FdType) (pipes : Pipes)
    (counted : CountedBy others fds pipes) where
  -- A descriptor that is no end is closed or replaced by one that is none.
  pub retype-CountedBy :
      (fd : ℕ) (type : FdType)
      → fd < max_fds
      → ((j : ℕ) → is_end j (fds fd) ≡ 0)
      → ((j : ℕ) → is_end j type ≡ 0)
      → CountedBy others (update fds fd type) pipes
  retype-CountedBy fd type below was is j inside =
      let same : ends_below max_fds j (update fds fd type) ≡ ends_below max_fds j fds =
        omega (arith, ends_below-update max_fds j fds fd type below, was j, is j) in
      subst (λ n. Agree (pipes j) (n + others j)) (sym same) (counted j inside)

  -- An end is taken away, and the count goes down.
  pub remove-CountedBy :
      (fd idx : ℕ) (writable : Bool) (change : Option Pipe → Option Pipe)
      → fd < max_fds
      → fds fd ≡ pipe_end idx writable
      → ((n : ℕ) (o : Option Pipe)
          → n < max_fds + others idx
          → Agree o (suc n)
          → Agree (change o) n)
      → CountedBy others (update fds fd closed) (change_pipe idx change pipes)
  remove-CountedBy fd idx writable change below is less j inside = elim (Bool-cases (idx == j)) [
    | inl here ↦
        let e : idx ≡ j = ground (arith, here) in
        subst (λ k. Agree (change_pipe idx change pipes k) (ends_below max_fds k fds' + others k)) e
          (at_idx (omega (arith, e, inside)))
    | inr other ↦
        let away : idx ≢ j = ground (arith, other) in
        let was : is_end j (fds fd) ≡ 0 = ap (is_end j) is ∙ is_end_other idx j writable away in
        subst (λ o. Agree o (ends_below max_fds j fds' + others j))
          (sym (change_pipe-away idx j change pipes away))
          (subst (λ n. Agree (pipes j) (n + others j))
            (omega (arith, ends_below-update max_fds j fds fd closed below, was))
            (counted j inside))
  ]
    where
      fds' : ℕ → FdType
      fds' = update fds fd closed

      at_idx :
          idx < max_pipes
          → Agree (change_pipe idx change pipes idx) (ends_below max_fds idx fds' + others idx)
      at_idx low =
          let was : is_end idx (fds fd) ≡ 1 = ap (is_end idx) is ∙ is_end_self idx writable in
          let fewer : ends_below max_fds idx fds + others idx
              ≡ suc (ends_below max_fds idx fds' + others idx) =
            omega (arith, ends_below-update max_fds idx fds fd closed below, was) in
          let few : ends_below max_fds idx fds' + others idx < max_fds + others idx =
            omega (arith, fewer, ends_below-le max_fds idx fds) in
          subst (λ o. Agree o (ends_below max_fds idx fds' + others idx))
            (sym (change_pipe-at idx change pipes low))
            (less (ends_below max_fds idx fds' + others idx) (pipes idx) few
              (subst (Agree (pipes idx)) fewer (counted idx low)))

  -- An end is added, and the count goes up.
  pub add-CountedBy :
      (fd from idx : ℕ) (writable : Bool)
      → fd < max_fds
      → from < max_fds
      → is_closed (fds fd) ≡ true
      → fds from ≡ pipe_end idx writable
      → others idx + max_fds + 1 < 2 ^ 16
      → CountedBy others (update fds fd (pipe_end idx writable)) (change_pipe idx add_end pipes)
  add-CountedBy fd from idx writable below from_below free is small j inside =
      elim (Bool-cases (idx == j)) [
        | inl here ↦
            let e : idx ≡ j = ground (arith, here) in
            subst
              (λ k. Agree (change_pipe idx add_end pipes k) (ends_below max_fds k fds' + others k))
              e (at_idx (omega (arith, e, inside)))
        | inr other ↦
            let away : idx ≢ j = ground (arith, other) in
            subst (λ o. Agree o (ends_below max_fds j fds' + others j))
              (sym (change_pipe-away idx j add_end pipes away))
              (subst (λ n. Agree (pipes j) (n + others j))
                (omega (
                  arith,
                  ends_below-update max_fds j fds fd type below,
                  is_end_other idx j writable away,
                  is_end-closed j (fds fd) free,
                ))
                (counted j inside))
      ]
    where
      type : FdType
      type = pipe_end idx writable

      fds' : ℕ → FdType
      fds' = update fds fd type

      at_idx :
          idx < max_pipes
          → Agree (change_pipe idx add_end pipes idx) (ends_below max_fds idx fds' + others idx)
      at_idx low =
          let there : is_end idx (fds from) ≡ 1 = ap (is_end idx) is ∙ is_end_self idx writable in
          let n : ℕ = ends_below max_fds idx fds + others idx in
          let more : suc n ≡ ends_below max_fds idx fds' + others idx = omega (
            arith,
            ends_below-update max_fds idx fds fd type below,
            is_end_self idx writable,
            is_end-closed idx (fds fd) free,
          ) in
          let some_end : 0 < n =
            omega (arith, is_end-le-ends_below max_fds idx fds from from_below, there) in
          let room : suc n < 2 ^ 16 = omega (arith, ends_below-le max_fds idx fds, small) in
          subst (λ o. Agree o (ends_below max_fds idx fds' + others idx))
            (sym (change_pipe-at idx add_end pipes low))
            (subst (Agree (add_end (pipes idx))) more
              (Agree-add_end (pipes idx) n some_end room (counted idx low)))
