-- ===== src/Waitpid/Reaping.antt =====
-- What `sys_waitpid` reaps.
use mathlib.Core.Option
use indominus_os.Prelude.{
  ℕ, ◌≡◌, ◌⊎◌, refl, ap, sym, ◌∙◌, subst, inl, inr, true, false, not, Option, none, some, ltb, ◌==◌,
  if◌then◌else◌, arith, Bool-cases, either_way,
}
use indominus_os.Process.{Process, blocked, wait_for_child, max_processes, is_zombie}
use indominus_os.Sched.{Scheduler}
use indominus_os.Sched.Spawn.{
  get_generation, child_of, is_child_of, zombie_child, find_any_zombie_child,
  find_any_stopped_child, reap_zombie,
}
use indominus_os.Sched.Waiting.{find_any_zombie_child_lem}
use indominus_os.Waitpid.{
  has_wnohang, has_wuntraced, has_children, block_on, no_zombie, report_stopped, slot_zombie,
  act_on, wait_any, wait_for, waitpid_by, sys_waitpid,
}
use indominus_os.Fds.{esrch}

-- Each process lies in the slot of its pid.
abbrev pub InOwnSlot : Scheduler → Type 0
InOwnSlot s = (i : ℕ) (p : Process) → s.processes i ≡ some p → p.pid ≡ i

own :
    (pid parent gen : ℕ) (s : Scheduler)
    → is_child_of pid parent gen s ≡ true
    → child_of parent gen (s.processes pid) ≡ true
unfolding is_child_of
own pid parent gen s h = elim (Bool-cases (ltb pid max_processes)) [
  | inl inside ↦
      let e : is_child_of pid parent gen s ≡ child_of parent gen (s.processes pid) =
        rw inside refl in
      sym e ∙ h
  | inr outside ↦
      let e : is_child_of pid parent gen s ≡ false = rw outside refl in
      absurd (let c : false ≡ true = sym e ∙ h in cc)
]

module _ (s : Scheduler) (j : ℕ) (p : Process) (there : s.processes j ≡ some p) where
  -- The slot is not freed.
  abbrev Stays : ℕ × Scheduler → Type 0
  Stays r = r.1.processes j ≡ none → ⊥

  unchanged : (n : ℕ) → Stays (n, s)
  unchanged n gone = let conflict : some p ≡ none = sym there ∙ gone in cc

  block_on-Stays : (parent child : ℕ) → Stays (block_on parent child s)
  unfolding block_on
  block_on-Stays parent child gone = elim (Bool-cases (parent == j)) [
    | inl here ↦
        let e : parent ≡ j = ground (arith, here) in
        let new : Process = record p { state = blocked; wake_reason = wait_for_child child } in
        let now : (block_on parent child s).1.processes j ≡ some new =
          rw here (ap (Option.map wait) (ap s.processes e ∙ there)) in
        let conflict : some new ≡ none = sym now ∙ gone in cc
    | inr other ↦
        let now : (block_on parent child s).1.processes j ≡ s.processes j = rw other refl in
        unchanged 0 (sym now ∙ gone)
  ]
    where
      wait : Process → Process
      wait q = record q { state = blocked; wake_reason = wait_for_child child }

  freed : (found : ℕ) → (reap_zombie found s).processes j ≡ none → found ≡ j
  unfolding reap_zombie
  freed found gone = elim (Bool-cases (found == j)) [
    | inl here ↦ ground (arith, here)
    | inr other ↦
        let now : (reap_zombie found s).processes j ≡ s.processes j = rw other refl in
        absurd (unchanged 0 (sym now ∙ gone))
  ]

  -- Only the child that was found is reaped, and only as a zombie.
  act_on-frees :
      (found parent flags : ℕ)
      → (act_on found parent flags s).1.processes j ≡ none
      → (found ≡ j)
        × (slot_zombie (s.processes found) ≡ true)
        × ((act_on found parent flags s).0 ≡ j)
  unfolding act_on reap_zombie
  act_on-frees found parent flags gone = elim (Bool-cases (slot_zombie (s.processes found))) [
    | inl dead ↦
        let reaped : act_on found parent flags s ≡ (found, reap_zombie found s) = rw dead refl in
        let at_j : (reap_zombie found s).processes j ≡ none =
          sym (ap (λ r. r.1.processes j) reaped) ∙ gone in
        let same : found ≡ j = freed found at_j in (same, dead, ap (λ r. r.0) reaped ∙ same)
    | inr alive ↦
        let left : ℕ × Scheduler = if has_wnohang flags then (0, s) else block_on parent found s in
        let kept : act_on found parent flags s ≡ left = rw alive refl in
        let stays : Stays left =
          either_way Stays (has_wnohang flags) (unchanged 0) (block_on-Stays parent found) in
        absurd (subst Stays (sym kept) stays gone)
  ]

  no_zombie-Stays : (parent gen flags : ℕ) → Stays (no_zombie parent gen flags s)
  no_zombie-Stays parent gen flags = either_way Stays (has_wnohang flags) (unchanged 0) (
      either_way Stays (not (has_children parent gen s)) (unchanged esrch)
        (block_on-Stays parent 0))

  report_stopped-Stays :
      (o : Option (ℕ × ℕ)) (parent gen flags : ℕ) → Stays (report_stopped o parent gen flags s)
  report_stopped-Stays none parent gen flags = no_zombie-Stays parent gen flags
  report_stopped-Stays (some (child, stop)) parent gen flags = unchanged 0

  -- A process whose slot `sys_waitpid` frees is a zombie and a child of the current process, and its
  -- pid is what the call returns; it is the one asked for, if the call does not ask for any child.
  -- Each process lies in the slot of its pid.
  pub sys_waitpid_reaps :
      (child flags parent : ℕ)
      → InOwnSlot s
      → s.current_pid ≡ some parent
      → (sys_waitpid child flags s).1.processes j ≡ none
      → (zombie_child parent (get_generation parent s) (some p) ≡ true)
        × ((sys_waitpid child flags s).0 ≡ j)
        × ((child ≡ 0) ⊎ (child ≡ j))
  unfolding sys_waitpid
  sys_waitpid_reaps child flags parent slots now gone =
      let by : sys_waitpid child flags s ≡ waitpid_by (some parent) child flags s =
        ap (λ c. waitpid_by c child flags s) now in
      subst Frees (sym by) asked gone
    where
      gen : ℕ
      gen = get_generation parent s

      Frees : ℕ × Scheduler → Type 0
      Frees r =
          r.1.processes j ≡ none
          → (zombie_child parent gen (some p) ≡ true) × (r.0 ≡ j) × ((child ≡ 0) ⊎ (child ≡ j))

      any : child ≡ 0 → Frees (wait_any (find_any_zombie_child s) parent gen flags s)
      any zero_child = elim (find_any_zombie_child_lem s parent now) [
        | inl (k, q, _, at_k, dead, _, found) ↦ λ freed_j.
            let act : wait_any (find_any_zombie_child s) parent gen flags s
                ≡ act_on q.pid parent flags s =
              ap (λ o. wait_any o parent gen flags s) found in
            let (is_j, _, result) =
              act_on-frees q.pid parent flags (sym (ap (λ r. r.1.processes j) act) ∙ freed_j) in
            let k_is_j : k ≡ j = sym (slots k q at_k) ∙ is_j in
            let both : some q ≡ some p = sym at_k ∙ ap s.processes k_is_j ∙ there in
            (
              ap (zombie_child parent gen) (sym both) ∙ dead,
              ap (λ r. r.0) act ∙ result,
              inl zero_child,
            )
        | inr (_, nothing) ↦ λ freed_j.
            let other : wait_any (find_any_zombie_child s) parent gen flags s
                ≡ wait_any none parent gen flags s =
              ap (λ o. wait_any o parent gen flags s) nothing in
            let stays : Stays (wait_any none parent gen flags s) =
              either_way Stays (has_wuntraced flags)
                (report_stopped-Stays (find_any_stopped_child parent gen s) parent gen flags)
                (no_zombie-Stays parent gen flags) in
            absurd (subst Stays (sym other) stays freed_j)
      ]

      named : Frees (wait_for child parent gen flags s)
      named = elim (Bool-cases (is_child_of child parent gen s)) [
        | inr stranger ↦ λ freed_j.
            let refused : wait_for child parent gen flags s ≡ (esrch, s) = rw stranger refl in
            absurd (subst Stays (sym refused) (unchanged esrch) freed_j)
        | inl ours ↦ λ freed_j.
            let act : wait_for child parent gen flags s ≡ act_on child parent flags s =
              rw ours refl in
            let (is_j, dead, result) =
              act_on-frees child parent flags (sym (ap (λ r. r.1.processes j) act) ∙ freed_j) in
            let here : s.processes child ≡ some p = ap s.processes is_j ∙ there in
            let is_own : child_of parent gen (some p) ≡ true =
              ap (child_of parent gen) (sym here) ∙ own child parent gen s ours in
            let is_dead : is_zombie p.state ≡ true = ap slot_zombie (sym here) ∙ dead in
            (rw (is_own, is_dead) refl, ap (λ r. r.0) act ∙ result, inr is_j)
      ]

      asked : Frees (waitpid_by (some parent) child flags s)
      asked = elim (Bool-cases (child == 0)) [
        | inl zero_child ↦ rw zero_child (any (ground (arith, zero_child)))
        | inr other ↦ rw other named
      ]
