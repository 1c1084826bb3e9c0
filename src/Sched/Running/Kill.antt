-- ===== src/Sched/Running/Kill.antt =====
-- The Running process after `kill_process` and `switch_next_force`.
use indominus_os.Prelude.{
  either_way, ℕ, ◌≡◌, refl, ◌∙◌, inl, inr, true, false, Option, none, some, arith, ltb, ◌==◌,
  if◌then◌else◌, Bool-cases,
}
use indominus_os.Process.{max_processes, Process, zombie, is_running}
use indominus_os.Sched.{Scheduler, pick_next, run_next, preempt_current}
use indominus_os.Sched.Deliver.{Machine}
use indominus_os.Sched.Switch.{
  reparent, kill_current, switch_next_force, for_each, reparent_orphans_to_init, kill_process,
  wake_sleeper,
}
use indominus_os.Sched.Running.{
  slot_running, OneRunning, NoneRunning, Calm, Calm-slot, run_next-OneRunning, off_current,
  no_current, preempt_current-NoneRunning,
}
use indominus_os.Sched.Running.Signals.{deliver_signal-OneRunning}

for_each-running :
    (change : Process → Process) (s : Scheduler) (i : ℕ)
    → Calm change
    → slot_running ((for_each change s).processes i) ≡ true
    → slot_running (s.processes i) ≡ true
unfolding for_each
for_each-running change s i calm h = elim (Bool-cases (ltb i max_processes)) [
  | inl inside ↦ Calm-slot change (s.processes i) calm (ground (arith, h, inside))
  | inr outside ↦ ground (arith, h, outside)
]

for_each-current_pid :
    (change : Process → Process) (s : Scheduler) → (for_each change s).current_pid ≡ s.current_pid
unfolding for_each
for_each-current_pid change s = refl

pub for_each-OneRunning :
    (change : Process → Process) (s : Scheduler)
    → Calm change
    → OneRunning s
    → OneRunning (for_each change s)
unfolding OneRunning
for_each-OneRunning change s calm one i h =
    for_each-current_pid change s ∙ one i (for_each-running change s i calm h)

reparent-Calm : (old init_pid gen : ℕ) → Calm (reparent old init_pid gen)
unfolding Calm
reparent-Calm old init_pid gen p h = go p p.parent_pid h
  where
    go :
        (p : Process) (parent : Option ℕ)
        → is_running
            (elim parent as (λ _. Process) [
              | none ↦ p
              | some a ↦
                  if a == old
                  then record p { parent_pid = some init_pid; parent_generation = gen }
                  else p
            ]).state
          ≡ true
        → is_running p.state ≡ true
    go p none h = h
    go p (some a) h = ground (arith, h)

pub wake_sleeper-Calm : (now : ℕ) → Calm (wake_sleeper now)
unfolding Calm
wake_sleeper-Calm now p h = ground (arith, h)

reparented-running :
    (init_pid old : ℕ) (s : Scheduler) (i : ℕ)
    → slot_running ((reparent_orphans_to_init init_pid old s).processes i) ≡ true
    → slot_running (s.processes i) ≡ true
unfolding reparent_orphans_to_init
reparented-running init_pid old s i =
    for_each-running (reparent old init_pid (s.generations init_pid)) s i
      (reparent-Calm old init_pid (s.generations init_pid))

kill_current-NoneRunning :
    (init_pid : ℕ) (s : Scheduler)
    → OneRunning s
    → NoneRunning (kill_current init_pid s.current_pid s)
unfolding OneRunning NoneRunning
kill_current-NoneRunning init_pid s one i = go s.current_pid (one i)
  where
    go :
        (cur : Option ℕ)
        → (slot_running (s.processes i) ≡ true → cur ≡ some i)
        → slot_running ((kill_current init_pid cur s).processes i) ≡ false
    go none is_cur = no_current (s.processes i) i is_cur
    go (some old) is_cur =
        off_current (λ p. record p { state = zombie }) old i
          (reparent_orphans_to_init init_pid old s) (λ p. refl)
          (λ h. is_cur (reparented-running init_pid old s i h))

pub kill_process-OneRunning :
    (init_pid : ℕ) (s : Scheduler) → OneRunning s → OneRunning (kill_process init_pid s).1
unfolding kill_process
kill_process-OneRunning init_pid s one =
    let s' = kill_current init_pid s.current_pid s in
    run_next-OneRunning (pick_next s') s' (kill_current-NoneRunning init_pid s one)

pub switch_next_force-OneRunning :
    (s : Scheduler) (m : Machine) → OneRunning s → OneRunning (switch_next_force s m).1
unfolding switch_next_force
switch_next_force-OneRunning s m one =
    let s' = preempt_current s.current_pid s in
    let s'' = run_next (pick_next s') s' in
    let one'' = run_next-OneRunning (pick_next s') s' (preempt_current-NoneRunning s one) in
    either_way (λ (r : ℕ × Scheduler × Machine). OneRunning r.1) _
      (deliver_signal-OneRunning (pick_next s') s'' m one'') one''
