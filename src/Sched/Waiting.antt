-- ===== src/Sched/Waiting.antt =====
-- Parents and their children that end: which child `waitpid` finds, and whom a killed child wakes.
use mathlib.Core.Option
use indominus_os.Prelude.{
  ℕ, ◌≡◌, ◌≢◌, ◌<◌, ◌⊎◌, refl, ap, ◌∙◌, subst, inl, inr, true, false, Option, none, some, ◌==◌,
  update_self, arith, Bool-cases,
}
use indominus_os.Process.{Process, wait_for_child, max_processes}
use indominus_os.Sched.{Scheduler, modify}
use indominus_os.Sched.Deliver.{
  deliver_default, default_action, wake_parent_of, wake_if_waiting, waits_for,
}
use indominus_os.Sched.Spawn.{
  first_slot, get_generation, find_any_zombie_child, zombie_child, zombie_child_of, report_zombie,
}
use indominus_os.Sched.Spawn.Families.{first_slot_lem}

-- Where the search of `find_any_zombie_child` stops.
pub find_any_zombie_child_lem :
    (s : Scheduler) (parent : ℕ)
    → s.current_pid ≡ some parent
    → ((k : ℕ) × (p : Process) × (k < max_processes)
        × (s.processes k ≡ some p)
        × (zombie_child parent (get_generation parent s) (some p) ≡ true)
        × ((j : ℕ) → j < k → zombie_child parent (get_generation parent s) (s.processes j) ≡ false)
        × (find_any_zombie_child s ≡ some (p.pid, parent, p.exit_code)))
      ⊎ (((j : ℕ)
            → j < max_processes
            → zombie_child parent (get_generation parent s) (s.processes j) ≡ false)
          × (find_any_zombie_child s ≡ none))
unfolding find_any_zombie_child
find_any_zombie_child_lem s parent cur =
    elim (first_slot_lem max_processes 0 (zombie_child parent (get_generation parent s))
      s.processes) [
        | inl (nothing, all) ↦ inr (
          λ j lt. all j (omega arith) (omega arith),
          ap (λ c. zombie_child_of c s) cur ∙ ap (λ i. report_zombie parent i s) nothing,
        )
        | inr (k, lo, lt, there, before, found) ↦
            inl (
              at k (s.processes k) refl (omega arith) there (λ j l. before j (omega arith) l) found)
      ]
  where
    at :
        (k : ℕ) (o : Option Process)
        → s.processes k ≡ o
        → k < max_processes
        → zombie_child parent (get_generation parent s) (s.processes k) ≡ true
        → ((j : ℕ) → j < k → zombie_child parent (get_generation parent s) (s.processes j) ≡ false)
        → first_slot max_processes 0 (zombie_child parent (get_generation parent s)) s.processes
          ≡ some k
        → (k' : ℕ) × (p : Process) × (k' < max_processes)
          × (s.processes k' ≡ some p)
          × (zombie_child parent (get_generation parent s) (some p) ≡ true)
          × ((j : ℕ)
              → j < k'
              → zombie_child parent (get_generation parent s) (s.processes j) ≡ false)
          × (find_any_zombie_child s ≡ some (p.pid, parent, p.exit_code))
    at k none e lt there before found =
        let off : zombie_child parent (get_generation parent s) (s.processes k) ≡ false = rw e in
        cc (off, there)
    at k (some p) e lt there before found = (
      k,
      p,
      lt,
      e,
      rw e at there,
      before,
      ap (λ c. zombie_child_of c s) cur ∙ ap (λ i. report_zombie parent i s) found ∙ rw e,
    )

not_woken :
    (pid gen : ℕ) (q : Process)
    → 0 < pid
    → q.wake_reason ≡ wait_for_child 0
    → wake_if_waiting pid gen q ≡ q
not_woken pid gen q above waits =
    let other : (0 == pid) ≡ false = ground arith in
    let no : waits_for pid q.wake_reason ≡ false = rw (waits, other) in rw no (ground arith)

not_woken_slot :
    (pid parent : ℕ) (q : Process) (o : Option Process) (s : Scheduler)
    → 0 < pid
    → s.processes parent ≡ some q
    → q.wake_reason ≡ wait_for_child 0
    → (wake_parent_of pid o s).processes parent ≡ some q
not_woken_slot pid parent q none s above there waits = there
not_woken_slot pid parent q (some p) s above there waits = go p.parent_pid
  where
    go :
        (of : Option ℕ)
        → (elim of as (λ _. Scheduler) [
          | none ↦ s
          | some a ↦ modify a (wake_if_waiting pid p.parent_generation) s
        ]).processes
            parent
          ≡ some q
    go none = there
    go (some a) = elim (Bool-cases (parent == a)) [
      | inr other ↦ ground (arith, there, other)
      | inl same ↦
          let e : parent ≡ a = ground (arith, same) in
          let kept = not_woken pid p.parent_generation q above waits in
          let here : s.processes a ≡ some q = subst (λ x. s.processes x ≡ some q) e there in
          rw e (
            update_self s.processes a
              (Option.map (wake_if_waiting pid p.parent_generation) (s.processes a))
            ∙ ap (Option.map (wake_if_waiting pid p.parent_generation)) here
            ∙ ap some kept)
    ]

-- A parent that waits for any of its children (`WaitForChild { child_pid: 0 }`) is not woken when a
-- default action of a signal kills one: its process is left as it was.
pub deliver_default_any_child :
    (pid parent signum : ℕ) (s : Scheduler) (q : Process)
    → 0 < pid
    → parent ≢ pid
    → s.processes parent ≡ some q
    → q.wake_reason ≡ wait_for_child 0
    → (deliver_default pid signum s).processes parent ≡ some q
unfolding deliver_default
deliver_default_any_child pid parent signum s q above apart there waits =
    let t = modify pid (default_action signum) s in
    let other : (pid == parent) ≡ false = elim (Bool-cases (pid == parent)) [
      | inr off ↦ off
      | inl on ↦ absurd (apart (ground (arith, on)))
    ] in
    let there' : t.processes parent ≡ some q = rw other there in
    not_woken_slot pid parent q (t.processes pid) t above there' waits
