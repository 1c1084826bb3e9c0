-- ===== src/Sched/Kinship/Signals.antt =====
-- Generations through the switches and signals of indo-kernel/src/process/scheduler.rs.
use indominus_os.Prelude.{
  either_way, ℕ, ◌+◌, ◌%◌, ◌^◌, ◌≡◌, ◌≤◌, true, Option, none, some, arith, ◌==◌, Bool-cases, inl,
  inr, if◌then◌else◌,
}
use indominus_os.Process.{Process, zombie, running, signal_handler, has_pending_signal}
use indominus_os.Sched.{
  Scheduler, modify, preempt, pick_next, run_next, preempt_current, switch_next, find_next_ready,
}
use indominus_os.Sched.Deliver.{
  Machine, clear, deliver_in, deliver_pending, wake_if_waiting, wake_parent_of, deliver_signal,
  deliver_to, deliver_default, deliver_handler, default_action,
}
use indominus_os.Sched.Switch.{
  reparent, kill_current, deliver_current, redispatch, stack_or_redispatch, stack_of_current,
  switch_next_force, for_each, reparent_orphans_to_init, kill_process, wake_sleeper,
  current_stack_pointer, on_tick,
}
use indominus_os.Sched.Kinship.{
  Kin, Known, Quiet, KeepsKin, KeepsKin-Quiet, modify-Known, for_each-Known, fields-Known,
}

preempt_current-Known :
    (cur : Option ℕ) (n : ℕ) (s : Scheduler) → Known n s → Known n (preempt_current cur s)
unfolding preempt_current
preempt_current-Known none n s known = known
preempt_current-Known (some old) n s known =
    modify-Known old preempt n s
      (KeepsKin-Quiet s.generations preempt (λ p. (ground arith, ground arith, ground arith))) known

run_next-Known : (q n : ℕ) (s : Scheduler) → Known n s → Known n (run_next q s)
unfolding run_next
run_next-Known q n s known =
    let s' = modify q (λ p. record p { state = running }) s in
    fields-Known n s' (some q) s'.tick_counter
      (modify-Known q (λ p. record p { state = running }) n s (λ i p kin. kin) known)

default_action-KeepsKin : (signum : ℕ) → KeepsKin (default_action signum)
unfolding default_action
default_action-KeepsKin signum p = (ground arith, ground arith, ground arith)

wake_if_waiting-KeepsKin : (child gen : ℕ) → KeepsKin (wake_if_waiting child gen)
wake_if_waiting-KeepsKin child gen p = (ground arith, ground arith, ground arith)

wake_sleeper-KeepsKin : (now : ℕ) → KeepsKin (wake_sleeper now)
wake_sleeper-KeepsKin now p = (ground arith, ground arith, ground arith)

deliver_default-Known :
    (pid signum n : ℕ) (s : Scheduler) → Known n s → Known n (deliver_default pid signum s)
unfolding deliver_default
deliver_default-Known pid signum n s known =
    let s' = modify pid (default_action signum) s in
    wake (s'.processes pid) s' (
      modify-Known pid (default_action signum) n s
        (KeepsKin-Quiet s.generations (default_action signum) (default_action-KeepsKin signum))
        known)
  where
    wake' :
        (parent : Option ℕ) (gen : ℕ) (t : Scheduler)
        → Known n t
        → Known n (elim parent [ none ↦ t | some a ↦ modify a (wake_if_waiting pid gen) t ])
    wake' none gen t known = known
    wake' (some a) gen t known =
        modify-Known a (wake_if_waiting pid gen) n t
          (KeepsKin-Quiet t.generations (wake_if_waiting pid gen)
            (wake_if_waiting-KeepsKin pid gen))
          known

    wake : (o : Option Process) (t : Scheduler) → Known n t → Known n (wake_parent_of pid o t)
    wake none t known = known
    wake (some p) t known = wake' p.parent_pid p.parent_generation t known

deliver_handler-Known :
    (pid signum addr n : ℕ) (p : Process) (s : Scheduler) (m : Machine)
    → Known n s
    → Known n (deliver_handler pid signum addr p s m).0
unfolding deliver_handler
deliver_handler-Known pid signum addr n p s m known =
    let Q : Scheduler × Machine → Type 0 = λ r. Known n r.0 in
    either_way Q _ known (
      either_way Q _
        (modify-Known pid
          (λ q.
            clear signum (record q { state = zombie; exit_code = 11; terminated_by_signal = true }))
          n s (λ i q kin. kin) known)
        (modify-Known pid (clear signum) n s (λ i q kin. kin) known))

deliver_to-Known :
    (pid signum n : ℕ) (p : Process) (s : Scheduler) (m : Machine)
    → Known n s
    → Known n (deliver_to pid signum p s m).0
unfolding deliver_to
deliver_to-Known pid signum n p s m known =
    let Q : Scheduler × Machine → Type 0 = λ r. Known n r.0 in
    either_way Q _ (deliver_default-Known pid signum n s known) (
      either_way Q _ (modify-Known pid (clear signum) n s (λ i q kin. kin) known)
        (deliver_handler-Known pid signum (signal_handler signum p) n p s m known))

deliver_signal-Known :
    (pid n : ℕ) (s : Scheduler) (m : Machine) → Known n s → Known n (deliver_signal pid s m).0
unfolding deliver_signal
deliver_signal-Known pid n s m known = deliver (s.processes pid)
  where
    pending : (signum : Option ℕ) (p : Process) → Known n (deliver_pending pid signum p s m).0
    pending none p = known
    pending (some signum) p = deliver_to-Known pid signum n p s m known

    deliver : (o : Option Process) → Known n (deliver_in pid o s m).0
    deliver none = known
    deliver (some p) =
        either_way (λ (r : Scheduler × Machine). Known n r.0) _ (pending (has_pending_signal p) p)
          known

reparent-Quiet :
    (gens : ℕ → ℕ) (old init_pid : ℕ) → Quiet gens (reparent old init_pid (gens init_pid))
reparent-Quiet gens old init_pid i p (own, of_parent) = go p.parent_pid
  where
    go :
        (parent : Option ℕ)
        → Kin gens i (elim parent as (λ _. Process) [
          | none ↦ p
          | some a ↦
              if a == old
              then record p { parent_pid = some init_pid; parent_generation = gens init_pid }
              else p
        ])
    go none = (own, of_parent)
    go (some a) = elim (Bool-cases (a == old)) [
      | inl same ↦ rw same (own, λ parent is pos. at_init parent is)
      | inr other ↦ rw other (own, of_parent)
    ]
      where
        at_init : (parent : ℕ) → some init_pid ≡ some parent → gens init_pid ≤ gens parent
        at_init parent is = let e : init_pid ≡ parent = cc is in rw e (omega arith)

kill_current-Known :
    (init_pid n : ℕ) (cur : Option ℕ) (s : Scheduler)
    → Known n s
    → Known n (kill_current init_pid cur s)
unfolding reparent_orphans_to_init for_each
kill_current-Known init_pid n none s known = known
kill_current-Known init_pid n (some old) s known =
    let change = reparent old init_pid (s.generations init_pid) in
    modify-Known old (λ p. record p { state = zombie }) n (for_each change s) (λ i p kin. kin)
      (for_each-Known change n s (reparent-Quiet s.generations old init_pid) known)

pub kill_process-Known :
    (init_pid n : ℕ) (s : Scheduler) → Known n s → Known n (kill_process init_pid s).1
unfolding kill_process
kill_process-Known init_pid n s known =
    let s' = kill_current init_pid s.current_pid s in
    run_next-Known (pick_next s') n s' (kill_current-Known init_pid n s.current_pid s known)

pub switch_next_force-Known :
    (n : ℕ) (s : Scheduler) (m : Machine) → Known n s → Known n (switch_next_force s m).1
unfolding switch_next_force
switch_next_force-Known n s m known =
    let s' = preempt_current s.current_pid s in
    let s'' = run_next (pick_next s') s' in
    let known'' =
      run_next-Known (pick_next s') n s' (preempt_current-Known s.current_pid n s known) in
    either_way (λ (r : ℕ × Scheduler × Machine). Known n r.1) _
      (deliver_signal-Known (pick_next s') n s'' m known'') known''

switch_next-Known : (n : ℕ) (s : Scheduler) → Known n s → Known n (switch_next s).1
unfolding switch_next
switch_next-Known n s known =
    let s' = preempt_current s.current_pid s in
    run_next-Known (pick_next s') n s' (preempt_current-Known s.current_pid n s known)

current_stack_pointer-Known :
    (n : ℕ) (s : Scheduler) → Known n s → Known n (current_stack_pointer s).1
unfolding current_stack_pointer
current_stack_pointer-Known n s known = go s.current_pid
  where
    again : (next : Option ℕ) (t : Scheduler) → Known n t → Known n (redispatch next t).1
    again none t known = known
    again (some q) t known = run_next-Known q n t known

    slot : (o : Option Process) → Known n (stack_or_redispatch o s).1
    slot (some p) = known
    slot none =
        let s' = record s { current_pid = none } in
        again (find_next_ready 0 s') s' (fields-Known n s none s.tick_counter known)

    go : (cur : Option ℕ) → Known n (stack_of_current cur s).1
    go none = known
    go (some pid) = slot (s.processes pid)

pub on_tick-Known :
    (now n : ℕ) (s : Scheduler) (m : Machine) → Known n s → Known n (on_tick now s m).1
unfolding on_tick
on_tick-Known now n s m known =
    let counted = record s { tick_counter = (s.tick_counter + 1) % 2 ^ 64 } in
    let woken = for_each (wake_sleeper now) counted in
    let known_woken : Known n woken =
      for_each-Known (wake_sleeper now) n counted
        (KeepsKin-Quiet s.generations (wake_sleeper now) (wake_sleeper-KeepsKin now))
        (fields-Known n s s.current_pid ((s.tick_counter + 1) % 2 ^ 64) known) in
    let reset = record woken { tick_counter = 0 } in
    let t = (switch_next reset).1 in
    either_way (λ (r : ℕ × Scheduler × Machine). Known n r.1) _
      (delivered t.current_pid (switch_next reset).0 t
        (switch_next-Known n reset (fields-Known n woken woken.current_pid 0 known_woken)))
      (current_stack_pointer-Known n woken known_woken)
  where
    delivered :
        (cur : Option ℕ) (sp : ℕ) (t : Scheduler)
        → Known n t
        → Known n (deliver_current cur sp t m).1
    delivered none sp t known = known
    delivered (some pid) sp t known =
        either_way (λ (r : ℕ × Scheduler × Machine). Known n r.1) _
          (deliver_signal-Known pid n t m known) known
