-- ===== src/Sched.antt =====
-- indo-kernel/src/process/scheduler.rs: the scheduler's state and the choice of the next process.
-- The process table is a function of the slot; the code indexes it by pids below MAX_PROCESSES.
pub mod Deliver
pub mod Switch
pub mod Next
pub mod Fair
pub mod Spawn
pub mod Running
pub mod Kinship
pub mod Waiting
mod Examples
use mathlib.Core.Option
use indominus_os.Prelude.{
  ℕ, zero, suc, ◌+◌, ◌-◌, ◌%◌, Bool, true, false, not, ◌&&◌, ◌||◌, Option, none, some, ltb, leb,
  ◌==◌, if◌then◌else◌, update,
}
use indominus_os.Process.{
  Process, ProcessState, max_processes, ready, running, zombie, is_ready, is_running,
}

pub record Scheduler : Type 0 where
  pub processes : ℕ → Option Process
  pub generations : ℕ → ℕ
  pub current_pid : Option ℕ
  pub tick_counter : ℕ
  pub quantum : ℕ
  pub idle_pid : ℕ

unfoldable pub new : Scheduler
new = record {
  processes = λ _. none;
  generations = λ _. 0;
  current_pid = none;
  tick_counter = 0;
  quantum = 5;
  idle_pid = 0;
}

unfoldable pub init : Scheduler → Scheduler
init s = record s { processes = λ _. none; current_pid = none; tick_counter = 0 }

-- `if let Some(ref mut proc) = self.processes[pid] { … }`
abbrev pub modify : ℕ → (Process → Process) → Scheduler → Scheduler
modify pid change s = record s {
  processes = update s.processes pid (Option.map change (s.processes pid));
}

-- The slot holds a process in the Ready state.
abbrev pub slot_ready : Option Process → Bool
slot_ready none = false
slot_ready (some p) = is_ready p.state

-- Pass 1 of `find_next_ready`, `rounds` steps from step i on.
unfoldable pub scan_ready : ℕ → ℕ → ℕ → Scheduler → Option ℕ
scan_ready zero i start s = none
scan_ready (suc rounds) i start s =
    let check_pid = (start + i) % max_processes in
    let rest = scan_ready rounds (i + 1) start s in
    if check_pid == s.idle_pid
    then rest
    else if slot_ready (s.processes check_pid)
    then some check_pid
    else rest

-- Pass 2.
abbrev idle_ready : Option ℕ → Scheduler → Option ℕ
idle_ready (some pid) s = some pid
idle_ready none s = if slot_ready (s.processes s.idle_pid) then some s.idle_pid else none

unfoldable pub find_next_ready : ℕ → Scheduler → Option ℕ
unfolding scan_ready
find_next_ready after_pid s =
    let start = (after_pid + 1) % max_processes in idle_ready (scan_ready max_processes 0 start s) s

abbrev pub or_pid : Option ℕ → ℕ → ℕ
or_pid (some pid) other = pid
or_pid none other = other

abbrev pub stack_of : Option Process → ℕ
stack_of none = 0
stack_of (some p) = p.stack_pointer

-- What the switches share: `find_next_ready` from the old process, and the new one set running.
unfoldable pub pick_next : Scheduler → ℕ
unfolding find_next_ready
pick_next s = or_pid (find_next_ready (or_pid s.current_pid 0) s) s.idle_pid

unfoldable pub run_next : ℕ → Scheduler → Scheduler
run_next new_pid s = record (modify new_pid (λ p. record p { state = running }) s) {
  current_pid = some new_pid;
}

-- Running becomes Ready; any other state stays.
abbrev preempt : Process → Process
preempt p = if is_running p.state then record p { state = ready } else p

unfoldable pub preempt_current : Option ℕ → Scheduler → Scheduler
preempt_current none s = s
preempt_current (some old) s = modify old preempt s

-- The new state, and the stack pointer to continue on.
unfoldable pub switch_next : Scheduler → ℕ × Scheduler
unfolding pick_next run_next preempt_current
switch_next s =
    let s' = preempt_current s.current_pid s in
    let new_pid = pick_next s' in
    let s'' = run_next new_pid s' in (stack_of (s''.processes new_pid), s'')

unfoldable pub dispatch_first : ℕ → Scheduler → ℕ × Scheduler
dispatch_first pid s =
    let s' = record (modify pid (λ p. record p { state = running }) s) {
      current_pid = some pid;
      tick_counter = 0;
    } in
    (stack_of (s'.processes pid), s')

abbrev pub save_in : Option ℕ → ℕ → ℕ → Scheduler → Scheduler
save_in none sp cr3 s = s
save_in (some pid) sp cr3 s = modify pid (λ p. record p { stack_pointer = sp; saved_cr3 = cr3 }) s

-- `cr3` is what the register holds.
unfoldable pub save_current_sp : ℕ → ℕ → Scheduler → Scheduler
save_current_sp sp cr3 s = save_in s.current_pid sp cr3 s
