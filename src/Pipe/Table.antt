-- ===== src/Pipe/Table.antt =====
-- The table of pipes of indo-kernel/src/process/mod.rs, as a function of the index.
use indominus_os.Prelude.{
  ℕ, zero, suc, ◌+◌, ◌≡◌, ◌≤◌, ◌<◌, ◌⊎◌, refl, inl, inr, Bool, true, false, Option, none, some, ltb,
  ◌==◌, if◌then◌else◌, update, arith, Bool-cases,
}
use indominus_os.Pipe.{Pipe, new}

abbrev pub max_pipes : ℕ
max_pipes = 16

abbrev pub Pipes : Type 0
Pipes = ℕ → Option Pipe

abbrev pub is_empty : Option Pipe → Bool
is_empty none = true
is_empty (some p) = false

-- `for i in 0..MAX_PIPES`, over `rounds` indices from index i on.
unfoldable pub alloc_pipe_loop : ℕ → ℕ → Pipes → Option (ℕ × Pipes)
alloc_pipe_loop zero i pipes = none
alloc_pipe_loop (suc rounds) i pipes =
    let rest = alloc_pipe_loop rounds (i + 1) pipes in
    if is_empty (pipes i) then some (i, update pipes i (some new)) else rest

unfoldable pub alloc_pipe : Pipes → Option (ℕ × Pipes)
unfolding alloc_pipe_loop
alloc_pipe pipes = alloc_pipe_loop max_pipes 0 pipes

unfoldable pub free_pipe : ℕ → Pipes → Pipes
free_pipe idx pipes = if ltb idx max_pipes then update pipes idx none else pipes

alloc_pipe_loop_lem :
    (r i : ℕ) (pipes : Pipes)
    → ((alloc_pipe_loop r i pipes ≡ none)
        × ((j : ℕ) → i ≤ j → j < i + r → is_empty (pipes j) ≡ false))
      ⊎ ((k : ℕ) × (i ≤ k)
          × (k < i + r)
          × (is_empty (pipes k) ≡ true)
          × (alloc_pipe_loop r i pipes ≡ some (k, update pipes k (some new))))
unfolding alloc_pipe_loop
alloc_pipe_loop_lem zero i pipes = inl (refl, λ j lo lt. absurd (omega arith))
alloc_pipe_loop_lem (suc r) i pipes = elim (Bool-cases (is_empty (pipes i))) [
  | inl here ↦ inr (i, omega arith, omega arith, here, rw here refl)
  | inr taken ↦ elim (alloc_pipe_loop_lem r (i + 1) pipes) [
    | inr (k, lo, lt, free, found) ↦ inr (k, omega arith, omega arith, free, rw taken found)
    | inl (nothing, all) ↦ inl (rw taken nothing, λ j lo lt. from_next taken all j lo lt)
  ]
]
  where
    from_next :
        is_empty (pipes i) ≡ false
        → ((j : ℕ) → i + 1 ≤ j → j < i + 1 + r → is_empty (pipes j) ≡ false)
        → (j : ℕ) → i ≤ j
        → j < i + suc r
        → is_empty (pipes j) ≡ false
    from_next taken all j lo lt = elim (Bool-cases (i == j)) [
      | inl self ↦ let e : i ≡ j = ground arith in rw e at taken
      | inr other ↦ all j (ground arith) (omega arith)
    ]

was_empty : (o : Option Pipe) → is_empty o ≡ true → o ≡ none
was_empty none h = refl
was_empty (some p) h = cc h

-- `alloc_pipe` fails only if all 16 slots hold a pipe. Otherwise it puts a new pipe in a slot of the
-- table that was empty, and `free_pipe` of that slot gives back the table that was there before.
pub alloc_pipe_lem :
    (pipes : Pipes)
    → ((alloc_pipe pipes ≡ none) × ((j : ℕ) → j < max_pipes → is_empty (pipes j) ≡ false))
      ⊎ ((k : ℕ) × (pipes' : Pipes) × (alloc_pipe pipes ≡ some (k, pipes'))
          × (k < max_pipes)
          × (pipes k ≡ none)
          × (pipes' k ≡ some new)
          × ((j : ℕ) → free_pipe k pipes' j ≡ pipes j))
unfolding alloc_pipe free_pipe
alloc_pipe_lem pipes = elim (alloc_pipe_loop_lem max_pipes 0 pipes) [
  | inl (nothing, all) ↦ inl (nothing, λ j lt. all j (omega arith) (omega arith))
  | inr (k, lo, lt, free, found) ↦
      let empty = was_empty (pipes k) free in
      inr (
        k,
        update pipes k (some new),
        found,
        omega arith,
        empty,
        ground arith,
        λ j. back k empty (omega arith) j,
      )
]
  where
    back :
        (k : ℕ)
        → pipes k ≡ none
        → k < max_pipes
        → (j : ℕ) → free_pipe k (update pipes k (some new)) j ≡ pipes j
    back k empty lt j = elim (Bool-cases (k == j)) [
      | inl same ↦
          let e : k ≡ j = ground (arith, same) in
          let gone : pipes j ≡ none = rw e at empty in ground (arith, gone, same)
      | inr other ↦ ground (arith, other)
    ]
