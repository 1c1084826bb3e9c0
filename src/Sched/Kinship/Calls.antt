-- ===== src/Sched/Kinship/Calls.antt =====
-- Generations through sequences of calls of indo-kernel/src/process/scheduler.rs, from the boot on.
use indominus_os.Prelude.{
  ℕ, zero, suc, ◌+◌, ◌^◌, ◌≡◌, ◌≤◌, ◌<◌, refl, ap, sym, ◌∙◌, subst, inl, inr, false, Option, none,
  some, List, [], ◌∷◌, length, arith, ltb, ◌==◌, update, Bool-cases,
}
use indominus_os.Process.{Process, max_processes, new_kernel, new_user}
use indominus_os.Sched.{Scheduler, save_in, save_current_sp, new}
use indominus_os.Sched.Deliver.{Machine}
use indominus_os.Sched.Spawn.{
  spawn_idle, spawn_kernel, spawn_user, spawn_kernel_in, spawn_user_in, kernel_process,
  user_process, reap_zombie, next_generation, free_slot, parent_gen, generation_of, get_generation,
  is_child_of,
}
use indominus_os.Sched.Spawn.Families.{Generations, spawn_user_no_children}
use indominus_os.Sched.Running.Calls.{
  Call, tick, force, kill, save, spawn_kernel_task, spawn_user_task, reap, run_call, run_calls,
}
use indominus_os.Sched.Kinship.{
  Kin, Known, Known-suc, generations-next_generation, next_generation-Known, place-Known,
  modify-Known,
}
use indominus_os.Sched.Kinship.Signals.{on_tick-Known, switch_next_force-Known, kill_process-Known}

Known-Generations : (n : ℕ) (s : Scheduler) → Known n s → Generations s
unfolding Known Generations
Known-Generations n s (slots, counts) i parent p there is pos = (slots i p there).1 parent is pos

generations-le : (n j : ℕ) (s : Scheduler) → Known n s → s.generations j ≤ n
unfolding Known
generations-le n j s (slots, counts) = counts j

save-Known : (sp cr3 n : ℕ) (s : Scheduler) → Known n s → Known n (save_current_sp sp cr3 s)
unfolding save_current_sp
save-Known sp cr3 n s known = go s.current_pid
  where
    go : (cur : Option ℕ) → Known n (save_in cur sp cr3 s)
    go none = known
    go (some pid) =
        modify-Known pid (λ p. record p { stack_pointer = sp; saved_cr3 = cr3 }) n s
          (λ i p kin. kin) known

spawn_kernel-Known :
    (stack : Option ℕ) (pml4 n : ℕ) (s : Scheduler)
    → suc n < 2 ^ 32
    → Known n s
    → Known (suc n) (spawn_kernel stack pml4 s).1
unfolding spawn_kernel kernel_process new_kernel
spawn_kernel-Known stack pml4 n s small known = go (free_slot s) stack
  where
    go : (slot stack : Option ℕ) → Known (suc n) (spawn_kernel_in slot stack pml4 s).1
    go none stack = Known-suc n s known
    go (some slot) none = next_generation-Known slot n s small known
    go (some slot) (some sp) =
        place-Known slot (suc n) _ (next_generation slot s)
          (λ pos. omega arith, λ parent is pos. cc is) (next_generation-Known slot n s small known)

-- The generation that a parent is known by.
parent_gen-le :
    (n parent : ℕ) (s : Scheduler)
    → Known n s
    → 0 < parent
    → parent_gen (some parent) s ≤ s.generations parent
unfolding Known
parent_gen-le n parent s (slots, counts) pos = elim (Bool-cases (ltb parent max_processes)) [
  | inr outside ↦ rw outside (omega arith)
  | inl inside ↦ rw inside (go (s.processes parent) refl)
]
  where
    go : (o : Option Process) → s.processes parent ≡ o → generation_of o ≤ s.generations parent
    go none e = omega arith
    go (some p) e = (slots parent p e).0 pos

spawn_user-Known :
    (stack : Option ℕ) (pml4 : ℕ) (parent : Option ℕ) (n : ℕ) (s : Scheduler)
    → suc n < 2 ^ 32
    → Known n s
    → Known (suc n) (spawn_user stack pml4 parent s).1
unfolding spawn_user user_process new_user
spawn_user-Known stack pml4 parent n s small known = go (free_slot s) stack
  where
    known_by :
        (slot a : ℕ)
        → parent ≡ some a
        → 0 < a
        → parent_gen parent s ≤ (next_generation slot s).generations a
    known_by slot a is pos =
        let g : parent_gen parent s ≡ parent_gen (some a) s = ap (λ x. parent_gen x s) is in
        let low = parent_gen-le n a s known pos in
        let up = generations-next_generation slot n a s small known in omega (arith, g, low, up)

    go : (slot stack : Option ℕ) → Known (suc n) (spawn_user_in slot stack pml4 parent s).1
    go none stack = Known-suc n s known
    go (some slot) none = next_generation-Known slot n s small known
    go (some slot) (some sp) =
        place-Known slot (suc n) _ (next_generation slot s)
          (λ pos. omega arith, λ a is pos. known_by slot a is pos)
          (next_generation-Known slot n s small known)

reap-Known : (pid n : ℕ) (s : Scheduler) → Known n s → Known n (reap_zombie pid s)
unfolding reap_zombie Known
reap-Known pid n s (slots, counts) = (
  λ i p e. elim (Bool-cases (i == pid)) [
    | inr other ↦ slots i p (ground (arith, e, other))
    | inl itself ↦ let gone : none ≡ some p = ground (arith, e, itself) in cc gone
  ],
  counts,
)

run_call-Known :
    (c : Call) (n : ℕ) (s : Scheduler) (m : Machine)
    → suc n < 2 ^ 32
    → Known n s
    → Known (suc n) (run_call c s m).0
unfolding run_call
run_call-Known (tick now) n s m small known = on_tick-Known now (suc n) s m (Known-suc n s known)
run_call-Known force n s m small known = switch_next_force-Known (suc n) s m (Known-suc n s known)
run_call-Known (kill init_pid) n s m small known =
    kill_process-Known init_pid (suc n) s (Known-suc n s known)
run_call-Known (save sp cr3) n s m small known = save-Known sp cr3 (suc n) s (Known-suc n s known)
run_call-Known (spawn_kernel_task stack pml4) n s m small known =
    spawn_kernel-Known stack pml4 n s small known
run_call-Known (spawn_user_task stack pml4 parent) n s m small known =
    spawn_user-Known stack pml4 parent n s small known
run_call-Known (reap pid) n s m small known = reap-Known pid (suc n) s (Known-suc n s known)

run_calls-Known :
    (calls : List Call) (n : ℕ) (s : Scheduler) (m : Machine)
    → n + length calls < 2 ^ 32
    → Known n s
    → Known (n + length calls) (run_calls calls s m).0
unfolding run_calls
run_calls-Known [] n s m small known =
    let e : n ≡ n + zero = omega arith in subst (λ k. Known k s) e known
run_calls-Known (c ∷ cs) n s m small known =
    let (t, m') = run_call c s m in
    let e : suc n + length cs ≡ n + suc (length cs) = omega arith in
    subst (λ k. Known k (run_calls (c ∷ cs) s m).0) e
      (run_calls-Known cs (suc n) t m' (omega arith) (run_call-Known c n s m (omega arith) known))

idle_table-Known :
    (p : Process)
    → p.parent_pid ≡ none
    → (i : ℕ) (q : Process) → update new.processes 0 (some p) i ≡ some q
    → Kin new.generations i q
unfolding new
idle_table-Known p orphan i q e = elim (Bool-cases (i == 0)) [
  | inr other ↦ let empty : none ≡ some q = ground (arith, e, other) in cc empty
  | inl itself ↦
      let held : some p ≡ some q = ground (arith, e, itself) in
      let none_there : q.parent_pid ≡ none = cc (held, orphan) in
      (
        λ pos. absurd (ground (arith, itself, pos)),
        λ parent is pos. let clash : none ≡ some parent = sym none_there ∙ is in cc clash,
      )
]

spawn_idle-Known :
    (stack : Option ℕ) (pml4 : ℕ) (s : Scheduler) → spawn_idle stack pml4 new ≡ some s → Known 0 s
unfolding spawn_idle new_kernel Known new
spawn_idle-Known none pml4 s e = cc e
spawn_idle-Known (some sp) pml4 s e =
    let same = the_table e in
    subst (Known 0) same ((λ i q there. idle_table-Known _ refl i q there), λ j. omega arith)
  where
    the_table : {t : Scheduler} → some t ≡ some s → t ≡ s
    the_table e = cc e

-- From the table that `spawn_idle` leaves at boot, after any sequence of fewer than 2 ^ 32 - 1 timer
-- ticks, forced switches, kills with their reparenting, context saves, spawns and reaps, signals
-- delivered on the way included: a process that `spawn_user` puts in a slot has no children there yet,
-- so none that an earlier process of the slot left behind counts as one.
pub calls_no_children :
    (calls : List Call) (m : Machine) (idle_stack : Option ℕ) (idle_pml4 : ℕ) (booted : Scheduler)
    (stack : Option ℕ) (pml4 : ℕ) (parent : Option ℕ) (pid i : ℕ)
    → spawn_idle idle_stack idle_pml4 new ≡ some booted
    → length calls + 1 < 2 ^ 32
    → (spawn_user stack pml4 parent (run_calls calls booted m).0).0 ≡ some pid
    → let s' = (spawn_user stack pml4 parent (run_calls calls booted m).0).1 in
      is_child_of i pid (get_generation pid s') s' ≡ false
calls_no_children calls m idle_stack idle_pml4 booted stack pml4 parent pid i boot few done =
    let s = (run_calls calls booted m).0 in
    let start : 0 + length calls ≡ length calls = omega arith in
    let known : Known (length calls) s =
      subst (λ k. Known k s) start
        (run_calls-Known calls 0 booted m (omega arith)
          (spawn_idle-Known idle_stack idle_pml4 booted boot)) in
    let count = generations-le (length calls) pid s known in
    spawn_user_no_children stack pml4 parent s pid i (Known-Generations (length calls) s known)
      (omega (arith, count, few)) done
