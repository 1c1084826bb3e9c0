-- ===== src/Sched/Spawn/Families.antt =====
-- Which processes count as children of which, by pid and generation.
use indominus_os.Prelude.{
  ℕ, zero, suc, ◌+◌, ◌-◌, ◌^◌, ◌≡◌, ◌≤◌, ◌<◌, ◌⊎◌, refl, ap, sym, ◌∙◌, subst, inl, inr, Bool, true,
  false, ◌&&◌, Option, none, some, ◌==◌, arith, Bool-cases,
}
use indominus_os.Process.{Process, max_processes, blank}
use indominus_os.Sched.{Scheduler}
use indominus_os.Sched.Spawn.{
  first_slot, is_free, free_slot, spawn_user, spawn_user_in, user_process, generation_of,
  parent_gen, next_generation, place, child_of, is_parent, get_generation, is_child_of,
}

-- Where the search stops: at the first slot of the range that passes, or nowhere.
pub first_slot_lem :
    (rounds i : ℕ) (test : Option Process → Bool) (processes : ℕ → Option Process)
    → ((first_slot rounds i test processes ≡ none)
        × ((j : ℕ) → i ≤ j → j < i + rounds → test (processes j) ≡ false))
      ⊎ ((k : ℕ) × (i ≤ k)
          × (k < i + rounds)
          × (test (processes k) ≡ true)
          × ((j : ℕ) → i ≤ j → j < k → test (processes j) ≡ false)
          × (first_slot rounds i test processes ≡ some k))
unfolding first_slot
first_slot_lem zero i test processes = inl (refl, λ j lo lt. absurd (omega arith))
first_slot_lem (suc r) i test processes = elim (Bool-cases (test (processes i))) [
  | inl here ↦
      inr (i, omega arith, omega arith, here, λ j lo lt. absurd (omega arith), ground (arith, here))
  | inr passes ↦ elim (first_slot_lem r (i + 1) test processes) [
    | inl (nothing, all) ↦ inl (
      ground (arith, nothing),
      λ j lo lt. from_next (i + suc r) passes (λ j' a b. all j' a (omega arith)) j lo lt,
    )
    | inr (k, lo, lt, there, before, found) ↦ inr (
      k,
      omega arith,
      omega arith,
      there,
      λ j lo' lt'. from_next k passes before j lo' lt',
      ground (arith, found),
    )
  ]
]
  where
    from_next :
        (end : ℕ)
        → test (processes i) ≡ false
        → ((j : ℕ) → i + 1 ≤ j → j < end → test (processes j) ≡ false)
        → (j : ℕ) → i ≤ j
        → j < end
        → test (processes j) ≡ false
    from_next end passes rest j lo lt = elim (Bool-cases (i == j)) [
      | inl self ↦ let e' : i ≡ j = ground arith in rw e' at passes
      | inr other ↦ rest j (ground arith) lt
    ]

-- Each process knows its parent, unless that is process 0, by a generation that the parent's slot has
-- had.
unfoldable pub Generations : Scheduler → Type 0
Generations s =
    (i parent : ℕ) (p : Process)
    → s.processes i ≡ some p
    → p.parent_pid ≡ some parent
    → 0 < parent
    → p.parent_generation ≤ s.generations parent

free_slot-free :
    (s : Scheduler) (slot : ℕ)
    → free_slot s ≡ some slot
    → (slot < max_processes) × (0 < slot) × (is_free (s.processes slot) ≡ true)
free_slot-free s slot found = elim (first_slot_lem (max_processes - 1) 1 is_free s.processes) [
  | inl (nothing, all) ↦ cc (nothing, found)
  | inr (k, lo, lt, there, before, at_k) ↦
      let e : k ≡ slot = cc (at_k, found) in
      (omega arith, omega arith, subst (λ x. is_free (s.processes x) ≡ true) e there)
]

abbrev the_process : Option Process → Process
the_process none = blank
the_process (some p) = p

-- What a spawn that returns a pid has done.
spawn_user_lem :
    (stack : Option ℕ) (pml4 : ℕ) (parent : Option ℕ) (s : Scheduler) (pid : ℕ)
    → (spawn_user stack pml4 parent s).0 ≡ some pid
    → (free_slot s ≡ some pid)
      × (p : Process) × (p.parent_pid ≡ parent)
      × (p.parent_generation ≡ parent_gen parent s)
      × ((spawn_user stack pml4 parent s).1 ≡ place pid p (next_generation pid s))
unfolding spawn_user user_process
spawn_user_lem stack pml4 parent s pid = go (free_slot s) stack
  where
    go :
        (free stack : Option ℕ)
        → (spawn_user_in free stack pml4 parent s).0 ≡ some pid
        → (free ≡ some pid)
          × (p : Process) × (p.parent_pid ≡ parent)
          × (p.parent_generation ≡ parent_gen parent s)
          × ((spawn_user_in free stack pml4 parent s).1 ≡ place pid p (next_generation pid s))
    go none stack h = cc h
    go (some slot) none h = cc h
    go (some slot) (some sp) h =
        let e : slot ≡ pid = cc h in
        let p : Process = the_process (
          user_process (some sp) pml4 parent (parent_gen parent s) slot
            ((next_generation slot s).generations slot)) in
        (ap some e, p, refl, refl, ap (λ x. place x p (next_generation x s)) e)

not_child :
    (pid gen : ℕ) (o : Option Process)
    → ((p : Process) → o ≡ some p → p.parent_pid ≡ some pid → p.parent_generation < gen)
    → child_of pid gen o ≡ false
not_child pid gen none older = refl
not_child pid gen (some p) older = go p.parent_pid (older p refl)
  where
    go :
        (parent : Option ℕ)
        → (parent ≡ some pid → p.parent_generation < gen)
        → (is_parent parent pid && p.parent_generation == gen) ≡ false
    go none older = refl
    go (some a) older = elim (Bool-cases (a == pid)) [
      | inr other ↦ rw other
      | inl same ↦
          let e : a ≡ pid = ground (arith, same) in let lt = older (ap some e) in ground (arith, lt)
    ]

free_generation : (o : Option Process) → is_free o ≡ true → generation_of o ≡ 0
free_generation none free = refl
free_generation (some p) free = cc free

-- A process whose parent is the free slot that it is put in was given generation 0 for its parent.
own_parent_generation :
    (s : Scheduler) (pid : ℕ) → is_free (s.processes pid) ≡ true → parent_gen (some pid) s ≡ 0
own_parent_generation s pid free =
    let none_there = free_generation (s.processes pid) free in ground (arith, none_there)

placed_no_children :
    (s : Scheduler) (pid i : ℕ) (p : Process)
    → Generations s
    → 0 < pid
    → s.generations pid + 1 < 2 ^ 32
    → is_free (s.processes pid) ≡ true
    → p.parent_generation ≡ parent_gen p.parent_pid s
    → child_of pid (s.generations pid + 1) ((place pid p (next_generation pid s)).processes i)
      ≡ false
unfolding Generations
placed_no_children s pid i p gens above small free given = elim (Bool-cases (i == pid)) [
  | inl itself ↦
      let here : (place pid p (next_generation pid s)).processes i ≡ some p =
        ground (arith, itself) in
      rw here (
        not_child pid (s.generations pid + 1) (some p) (λ q e mine.
          let parent : p.parent_pid ≡ some pid = cc (e, mine) in
          let g : p.parent_generation ≡ 0 =
            given ∙ ap (λ x. parent_gen x s) parent ∙ own_parent_generation s pid free in
          let same : q.parent_generation ≡ p.parent_generation = cc e in omega (arith, g, same)))
  | inr other ↦
      let here : (place pid p (next_generation pid s)).processes i ≡ s.processes i =
        ground (arith, other) in
      rw here (
        not_child pid (s.generations pid + 1) (s.processes i)
          (λ q e mine. let bound = gens i pid q e mine above in omega (arith, bound)))
]

-- While each process knows its parent by a generation that the slot had, and the slot's count does not
-- wrap, a process that `spawn_user` has put in a slot has no children there yet.
pub spawn_user_no_children :
    (stack : Option ℕ) (pml4 : ℕ) (parent : Option ℕ) (s : Scheduler) (pid i : ℕ)
    → Generations s
    → s.generations pid + 1 < 2 ^ 32
    → (spawn_user stack pml4 parent s).0 ≡ some pid
    → let s' = (spawn_user stack pml4 parent s).1 in
      is_child_of i pid (get_generation pid s') s' ≡ false
unfolding Generations is_child_of get_generation
spawn_user_no_children stack pml4 parent s pid i gens small done =
    let (free, p, of_parent, parent_g, after) = spawn_user_lem stack pml4 parent s pid done in
    let (inside, above, empty) = free_slot-free s pid free in
    let t = place pid p (next_generation pid s) in
    let given : p.parent_generation ≡ parent_gen p.parent_pid s =
      parent_g ∙ ap (λ x. parent_gen x s) (sym of_parent) in
    let counted : get_generation pid t ≡ s.generations pid + 1 = ground arith in
    let childless = placed_no_children s pid i p gens above small empty given in
    subst (λ x. is_child_of i pid (get_generation pid x) x ≡ false) (sym after)
      (rw counted (ground (arith, childless)))

placed_child :
    (s : Scheduler) (parent pid : ℕ) (p : Process)
    → pid < max_processes
    → parent < max_processes
    → (parent == pid) ≡ false
    → is_parent p.parent_pid parent ≡ true
    → p.parent_generation ≡ s.generations parent
    → let t = place pid p (next_generation pid s) in
      is_child_of pid parent (get_generation parent t) t ≡ true
unfolding is_child_of get_generation
placed_child s parent pid p inside low apart child given =
    let other : get_generation parent (place pid p (next_generation pid s)) ≡ s.generations parent =
      ground arith in
    let here : (place pid p (next_generation pid s)).processes pid ≡ some p = ground arith in
    let is : child_of parent (s.generations parent) (some p) ≡ true =
      ground (arith, child, given) in
    rw (other, here) (ground (arith, is))

-- `spawn_user` for a parent in the table, whose generation is the one its slot is at, makes a child of
-- that parent.
pub spawn_user_child :
    (stack : Option ℕ) (pml4 : ℕ) (s : Scheduler) (parent pid : ℕ) (q : Process)
    → parent < max_processes
    → s.processes parent ≡ some q
    → q.generation ≡ s.generations parent
    → (spawn_user stack pml4 (some parent) s).0 ≡ some pid
    → let s' = (spawn_user stack pml4 (some parent) s).1 in
      is_child_of pid parent (get_generation parent s') s' ≡ true
spawn_user_child stack pml4 s parent pid q low there current done =
    let (free, p, of_parent, parent_g, after) =
      spawn_user_lem stack pml4 (some parent) s pid done in
    let (inside, above, empty) = free_slot-free s pid free in
    let t = place pid p (next_generation pid s) in
    let apart : (parent == pid) ≡ false = elim (Bool-cases (parent == pid)) [
      | inr other ↦ other
      | inl same ↦
          let e : parent ≡ pid = ground (arith, same) in
          let filled : is_free (s.processes pid) ≡ false =
            subst (λ x. is_free (s.processes x) ≡ false) e (ap is_free there) in
          cc (filled, empty)
    ] in
    let gen : parent_gen (some parent) s ≡ s.generations parent =
      rw (there, current) (ground arith) in
    let child : is_parent p.parent_pid parent ≡ true = rw of_parent (ground arith) in
    subst (λ x. is_child_of pid parent (get_generation parent x) x ≡ true) (sym after)
      (placed_child s parent pid p inside low apart child (parent_g ∙ gen))
