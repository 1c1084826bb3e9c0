-- ===== src/Sched/Running.antt =====
-- Which processes are Running as indo-kernel/src/process/scheduler.rs switches between them.
pub mod Signals
pub mod Kill
pub mod Tick
pub mod Calls
use mathlib.Core.Option
use indominus_os.Prelude.{
  ℕ, zero, suc, ◌+◌, ◌-◌, ◌≡◌, ◌≢◌, ◌≤◌, ◌<◌, ◌⊎◌, refl, ap, sym, ◌∙◌, subst, inl, inr, Bool, true,
  false, not, ◌&&◌, ◌||◌, Option, none, some, List, [], ◌∷◌, arith, ltb, leb, ◌==◌, if◌then◌else◌,
  update, Bool-cases, Option-cases,
}
use indominus_os.Process.{
  max_processes, Process, ready, running, blocked, zombie, is_running, new_kernel, new_user,
  signal_handler, has_pending_signal,
}
use indominus_os.Sched.{
  Scheduler, preempt, modify, pick_next, run_next, preempt_current, switch_next, save_current_sp,
  find_next_ready,
}
use indominus_os.Sched.Deliver.{
  Machine, clear, deliver_in, deliver_pending, wake_if_waiting, wake_parent_of, deliver_signal,
  deliver_to, deliver_default, deliver_handler, default_action,
}
use indominus_os.Sched.Switch.{
  reparent, kill_current, deliver_current, redispatch, stack_or_redispatch, stack_of_current,
  switch_next_force, for_each, reparent_orphans_to_init, kill_process, wake_sleeper,
  current_stack_pointer, on_tick,
}

abbrev pub slot_running : Option Process → Bool
slot_running none = false
slot_running (some p) = is_running p.state

pub OneRunning : Scheduler → Type 0
OneRunning s = (i : ℕ) → slot_running (s.processes i) ≡ true → s.current_pid ≡ some i

pub NoneRunning : Scheduler → Type 0
NoneRunning s = (i : ℕ) → slot_running (s.processes i) ≡ false

-- A change that sets no process running.
pub Calm : (Process → Process) → Type 0
Calm change = (p : Process) → is_running (change p).state ≡ true → is_running p.state ≡ true

Calm-slot :
    (change : Process → Process) (o : Option Process)
    → Calm change
    → slot_running (Option.map change o) ≡ true
    → slot_running o ≡ true
unfolding Calm
Calm-slot change none calm h = h
Calm-slot change (some p) calm h = calm p h

modify-running :
    (pid : ℕ) (change : Process → Process) (s : Scheduler) (i : ℕ)
    → Calm change
    → slot_running ((modify pid change s).processes i) ≡ true
    → slot_running (s.processes i) ≡ true
modify-running pid change s i calm h = elim (Bool-cases (i == pid)) [
  | inl itself ↦
      let e : i ≡ pid = ground arith in
      subst (λ x. slot_running (s.processes x) ≡ true) (sym e)
        (Calm-slot change (s.processes pid) calm (ground (arith, h)))
  | inr other ↦ ground (arith, h)
]

modify-OneRunning :
    (pid : ℕ) (change : Process → Process) (s : Scheduler)
    → Calm change
    → OneRunning s
    → OneRunning (modify pid change s)
unfolding OneRunning
modify-OneRunning pid change s calm one i h = one i (modify-running pid change s i calm h)

run_next-OneRunning : (q : ℕ) (s : Scheduler) → NoneRunning s → OneRunning (run_next q s)
unfolding OneRunning NoneRunning run_next
run_next-OneRunning q s idle i h = elim (Bool-cases (i == q)) [
  | inl itself ↦ ground arith
  | inr other ↦
      let still : slot_running (s.processes i) ≡ true = ground (arith, h) in cc (still, idle i)
]

off_slot :
    (off : Process → Process) (o : Option Process)
    → ((p : Process) → is_running (off p).state ≡ false)
    → slot_running (Option.map off o) ≡ false
off_slot off none stops = refl
off_slot off (some p) stops = stops p

-- Taking the current process off leaves none Running.
off_current :
    (off : Process → Process) (old i : ℕ) (s : Scheduler)
    → ((p : Process) → is_running (off p).state ≡ false)
    → (slot_running (s.processes i) ≡ true → some old ≡ some i)
    → slot_running ((modify old off s).processes i) ≡ false
off_current off old i s stops is_cur = elim (Bool-cases (i == old)) [
  | inl itself ↦
      let e : i ≡ old = ground arith in ground (arith, off_slot off (s.processes old) stops)
  | inr other ↦ elim (Bool-cases (slot_running (s.processes i))) [
    | inr off ↦ ground (arith, off)
    | inl on ↦ let e : old ≡ i = cc (is_cur on) in absurd (ground (arith, other, e))
  ]
]

no_current :
    (o : Option Process) (i : ℕ) → (slot_running o ≡ true → none ≡ some i) → slot_running o ≡ false
no_current o i is_cur = elim (Bool-cases (slot_running o)) [
  | inl on ↦ cc (is_cur on)
  | inr off ↦ off
]

preempt-off : (p : Process) → is_running (preempt p).state ≡ false
preempt-off p = elim (Bool-cases (is_running p.state)) [ inl e ↦ rw e | inr e ↦ rw (e, e) ]

preempt_current-NoneRunning :
    (s : Scheduler) → OneRunning s → NoneRunning (preempt_current s.current_pid s)
unfolding OneRunning NoneRunning preempt_current
preempt_current-NoneRunning s one i = go s.current_pid (one i)
  where
    go :
        (cur : Option ℕ)
        → (slot_running (s.processes i) ≡ true → cur ≡ some i)
        → slot_running ((preempt_current cur s).processes i) ≡ false
    go none is_cur = no_current (s.processes i) i is_cur
    go (some old) is_cur = off_current preempt old i s preempt-off is_cur

switch_next-OneRunning : (s : Scheduler) → OneRunning s → OneRunning (switch_next s).1
unfolding switch_next
switch_next-OneRunning s one =
    let s' = preempt_current s.current_pid s in
    run_next-OneRunning (pick_next s') s' (preempt_current-NoneRunning s one)
