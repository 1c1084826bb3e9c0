-- ===== src/Sched/Switch.antt =====
-- The switches of indo-kernel/src/process/scheduler.rs that deliver signals, kill or count ticks.
use mathlib.Core.Option
use indominus_os.Prelude.{
  ℕ, ◌+◌, ◌%◌, ◌^◌, Bool, false, not, ◌&&◌, Option, none, some, ltb, leb, ◌==◌, if◌then◌else◌,
}
use indominus_os.Process.{
  Process, WakeReason, sleep, no_reason, ready, zombie, is_blocked, max_processes,
}
use indominus_os.Sched.{
  Scheduler, modify, stack_of, switch_next, pick_next, run_next, preempt_current, find_next_ready,
}
use indominus_os.Sched.Deliver.{Machine, deliver_signal}

unfoldable pub switch_next_force : Scheduler → Machine → ℕ × Scheduler × Machine
unfolding pick_next run_next preempt_current deliver_signal
switch_next_force s m =
    let s' = preempt_current s.current_pid s in
    let new_pid = pick_next s' in
    let s'' = run_next new_pid s' in
    let sp = stack_of (s''.processes new_pid) in
    if not (new_pid == 0)
    then (let (t, m') = deliver_signal new_pid s'' m in (sp, t, m'))
    else (sp, s'', m)

-- A loop over all slots that changes each process by itself.
unfoldable pub for_each : (Process → Process) → Scheduler → Scheduler
for_each change s = record s {
  processes = λ i. if ltb i max_processes then Option.map change (s.processes i) else s.processes i;
}

abbrev pub reparent : ℕ → ℕ → ℕ → Process → Process
reparent old_parent init_pid init_gen p = elim p.parent_pid [
  | none ↦ p
  | some parent ↦
      if parent == old_parent
      then record p { parent_pid = some init_pid; parent_generation = init_gen }
      else p
]

-- `init_pid` is the static INIT_PID.
unfoldable pub reparent_orphans_to_init : ℕ → ℕ → Scheduler → Scheduler
unfolding for_each
reparent_orphans_to_init init_pid old_parent s =
    for_each (reparent old_parent init_pid (s.generations init_pid)) s

abbrev pub kill_current : ℕ → Option ℕ → Scheduler → Scheduler
kill_current init_pid none s = s
kill_current init_pid (some old) s =
    modify old (λ p. record p { state = zombie }) (reparent_orphans_to_init init_pid old s)

unfoldable pub kill_process : ℕ → Scheduler → ℕ × Scheduler
unfolding pick_next run_next reparent_orphans_to_init
kill_process init_pid s =
    let s' = kill_current init_pid s.current_pid s in
    let new_pid = pick_next s' in
    let s'' = run_next new_pid s' in (stack_of (s''.processes new_pid), s'')

abbrev due : ℕ → WakeReason → Bool
due now (sleep deadline) = leb deadline now
due now _ = false

abbrev pub wake_sleeper : ℕ → Process → Process
wake_sleeper now p =
    if is_blocked p.state && due now p.wake_reason
    then record p { state = ready; wake_reason = no_reason }
    else p

abbrev pub redispatch : Option ℕ → Scheduler → ℕ × Scheduler
redispatch none s = (0, s)
redispatch (some next) s = (stack_of (s.processes next), run_next next s)

-- A dangling current pid is cleared, and a Ready process set running.
abbrev pub stack_or_redispatch : Option Process → Scheduler → ℕ × Scheduler
stack_or_redispatch (some p) s = (p.stack_pointer, s)
stack_or_redispatch none s =
    let s' = record s { current_pid = none } in redispatch (find_next_ready 0 s') s'

abbrev pub stack_of_current : Option ℕ → Scheduler → ℕ × Scheduler
stack_of_current none s = (0, s)
stack_of_current (some pid) s = stack_or_redispatch (s.processes pid) s

unfoldable pub current_stack_pointer : Scheduler → ℕ × Scheduler
unfolding find_next_ready run_next
current_stack_pointer s = stack_of_current s.current_pid s

-- Signals go to the process that was switched to, unless it is idle.
abbrev pub deliver_current : Option ℕ → ℕ → Scheduler → Machine → ℕ × Scheduler × Machine
deliver_current none new_sp s m = (new_sp, s, m)
deliver_current (some next_pid) new_sp s m =
    if not (next_pid == 0)
    then (let (t, m') = deliver_signal next_pid s m in (new_sp, t, m'))
    else (new_sp, s, m)

-- `now` is the timer's tick count.
unfoldable pub on_tick : ℕ → Scheduler → Machine → ℕ × Scheduler × Machine
unfolding for_each switch_next deliver_signal current_stack_pointer
on_tick now s m =
    let woken =
      for_each (wake_sleeper now) (record s { tick_counter = (s.tick_counter + 1) % 2 ^ 64 }) in
    if leb woken.quantum woken.tick_counter
    then (let (new_sp, t) = switch_next (record woken { tick_counter = 0 }) in
        deliver_current t.current_pid new_sp t m)
    else (let (sp, t) = current_stack_pointer woken in (sp, t, m))
