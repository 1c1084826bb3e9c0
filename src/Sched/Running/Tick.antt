-- ===== src/Sched/Running/Tick.antt =====
-- The Running process after `on_tick`.
use indominus_os.Prelude.{
  either_way, ℕ, ◌+◌, ◌%◌, ◌^◌, ◌≡◌, refl, ap, subst, inl, inr, false, Option, none, some,
  Bool-cases,
}
use indominus_os.Process.{Process}
use indominus_os.Sched.{Scheduler, switch_next, find_next_ready}
use indominus_os.Sched.Deliver.{Machine}
use indominus_os.Sched.Switch.{
  deliver_current, redispatch, stack_or_redispatch, stack_of_current, for_each, wake_sleeper,
  current_stack_pointer, on_tick,
}
use indominus_os.Sched.Running.{
  slot_running, OneRunning, NoneRunning, run_next-OneRunning, switch_next-OneRunning,
}
use indominus_os.Sched.Running.Signals.{deliver_signal-OneRunning}
use indominus_os.Sched.Running.Kill.{for_each-OneRunning, wake_sleeper-Calm}

-- `current_stack_pointer` where the current slot is empty.
dangling-NoneRunning :
    (s : Scheduler) (pid : ℕ)
    → OneRunning s
    → s.current_pid ≡ some pid
    → s.processes pid ≡ none
    → NoneRunning s
unfolding OneRunning NoneRunning
dangling-NoneRunning s pid one cur empty i = elim (Bool-cases (slot_running (s.processes i))) [
  | inr off ↦ off
  | inl on ↦
      let e : pid ≡ i = cc (cur, one i on) in
      let off : slot_running (s.processes i) ≡ false =
        subst (λ x. slot_running (s.processes x) ≡ false) e (ap slot_running empty) in
      cc off
]

redispatch-OneRunning :
    (next : Option ℕ) (s : Scheduler) → NoneRunning s → OneRunning (redispatch next s).1
unfolding OneRunning NoneRunning
redispatch-OneRunning none s idle i h = cc (h, idle i)
redispatch-OneRunning (some q) s idle i h = run_next-OneRunning q s idle i h

clear_current-NoneRunning :
    (s : Scheduler) → NoneRunning s → NoneRunning (record s { current_pid = none })
unfolding NoneRunning
clear_current-NoneRunning s idle i = idle i

current_stack_pointer-OneRunning :
    (s : Scheduler) → OneRunning s → OneRunning (current_stack_pointer s).1
unfolding current_stack_pointer
current_stack_pointer-OneRunning s one = go s.current_pid refl
  where
    slot :
        (pid : ℕ) (o : Option Process)
        → s.current_pid ≡ some pid
        → s.processes pid ≡ o
        → OneRunning (stack_or_redispatch o s).1
    slot pid (some p) cur e = one
    slot pid none cur e =
        let s' = record s { current_pid = none } in
        redispatch-OneRunning (find_next_ready 0 s') s'
          (clear_current-NoneRunning s (dangling-NoneRunning s pid one cur e))

    go : (cur : Option ℕ) → s.current_pid ≡ cur → OneRunning (stack_of_current cur s).1
    go none e = one
    go (some pid) e = slot pid (s.processes pid) e refl

record-OneRunning :
    (s : Scheduler) (count : ℕ) → OneRunning s → OneRunning (record s { tick_counter = count })
unfolding OneRunning
record-OneRunning s count one = one

pub on_tick-OneRunning :
    (now : ℕ) (s : Scheduler) (m : Machine) → OneRunning s → OneRunning (on_tick now s m).1
unfolding on_tick
on_tick-OneRunning now s m one =
    let counted = record s { tick_counter = (s.tick_counter + 1) % 2 ^ 64 } in
    let woken = for_each (wake_sleeper now) counted in
    let one_woken : OneRunning woken =
      for_each-OneRunning (wake_sleeper now) counted (wake_sleeper-Calm now)
        (record-OneRunning s ((s.tick_counter + 1) % 2 ^ 64) one) in
    let reset = record woken { tick_counter = 0 } in
    let one_next = switch_next-OneRunning reset (record-OneRunning woken 0 one_woken) in
    let t = (switch_next reset).1 in
    either_way (λ (r : ℕ × Scheduler × Machine). OneRunning r.1) _
      (delivered t.current_pid (switch_next reset).0 t one_next)
      (current_stack_pointer-OneRunning woken one_woken)
  where
    delivered :
        (cur : Option ℕ) (sp : ℕ) (t : Scheduler)
        → OneRunning t
        → OneRunning (deliver_current cur sp t m).1
    delivered none sp t one_t = one_t
    delivered (some pid) sp t one_t =
        either_way (λ (r : ℕ × Scheduler × Machine). OneRunning r.1) _
          (deliver_signal-OneRunning pid t m one_t) one_t
