-- ===== src/Sched/Running/Signals.antt =====
-- The Running process after `deliver_signal`.
use indominus_os.Prelude.{either_way, ℕ, true, Option, none, some, arith}
use indominus_os.Process.{Process, zombie, signal_handler, has_pending_signal}
use indominus_os.Sched.{Scheduler, modify}
use indominus_os.Sched.Deliver.{
  Machine, clear, deliver_in, deliver_pending, wake_if_waiting, wake_parent_of, deliver_signal,
  deliver_to, deliver_default, deliver_handler, default_action,
}
use indominus_os.Sched.Running.{OneRunning, Calm, modify-OneRunning}

clear-Calm : (signum : ℕ) → Calm (clear signum)
unfolding Calm
clear-Calm signum p h = h

default_action-Calm : (signum : ℕ) → Calm (default_action signum)
unfolding Calm default_action
default_action-Calm signum p h = ground arith

wake_if_waiting-Calm : (child gen : ℕ) → Calm (wake_if_waiting child gen)
unfolding Calm
wake_if_waiting-Calm child gen p h = ground arith

deliver_default-OneRunning :
    (pid signum : ℕ) (s : Scheduler) → OneRunning s → OneRunning (deliver_default pid signum s)
unfolding deliver_default
deliver_default-OneRunning pid signum s one =
    let s' = modify pid (default_action signum) s in
    wake (s'.processes pid) s'
      (modify-OneRunning pid (default_action signum) s (default_action-Calm signum) one)
  where
    wake : (o : Option Process) (t : Scheduler) → OneRunning t → OneRunning (wake_parent_of pid o t)
    wake none t one_t = one_t
    wake (some p) t one_t = wake' p.parent_pid p.parent_generation t one_t
      where
        wake' :
            (parent : Option ℕ) (gen : ℕ) (t : Scheduler)
            → OneRunning t
            → OneRunning (elim parent [ none ↦ t | some a ↦ modify a (wake_if_waiting pid gen) t ])
        wake' none gen t one_t = one_t
        wake' (some a) gen t one_t =
            modify-OneRunning a (wake_if_waiting pid gen) t (wake_if_waiting-Calm pid gen) one_t

deliver_handler-OneRunning :
    (pid signum addr : ℕ) (p : Process) (s : Scheduler) (m : Machine)
    → OneRunning s
    → OneRunning (deliver_handler pid signum addr p s m).0
unfolding deliver_handler Calm
deliver_handler-OneRunning pid signum addr p s m one =
    let Q : Scheduler × Machine → Type 0 = λ r. OneRunning r.0 in
    either_way Q _ one (
      either_way Q _
        (modify-OneRunning pid
          (λ q.
            clear signum (record q { state = zombie; exit_code = 11; terminated_by_signal = true }))
          s (λ q h. cc h) one)
        (modify-OneRunning pid (clear signum) s (clear-Calm signum) one))

deliver_to-OneRunning :
    (pid signum : ℕ) (p : Process) (s : Scheduler) (m : Machine)
    → OneRunning s
    → OneRunning (deliver_to pid signum p s m).0
unfolding deliver_to
deliver_to-OneRunning pid signum p s m one =
    let Q : Scheduler × Machine → Type 0 = λ r. OneRunning r.0 in
    either_way Q _ (deliver_default-OneRunning pid signum s one) (
      either_way Q _ (modify-OneRunning pid (clear signum) s (clear-Calm signum) one)
        (deliver_handler-OneRunning pid signum (signal_handler signum p) p s m one))

pub deliver_signal-OneRunning :
    (pid : ℕ) (s : Scheduler) (m : Machine) → OneRunning s → OneRunning (deliver_signal pid s m).0
unfolding deliver_signal
deliver_signal-OneRunning pid s m one = deliver (s.processes pid)
  where
    pending : (signum : Option ℕ) (p : Process) → OneRunning (deliver_pending pid signum p s m).0
    pending none p = one
    pending (some signum) p = deliver_to-OneRunning pid signum p s m one

    deliver : (o : Option Process) → OneRunning (deliver_in pid o s m).0
    deliver none = one
    deliver (some p) =
        either_way (λ (r : Scheduler × Machine). OneRunning r.0) _
          (pending (has_pending_signal p) p) one
