-- ===== src/Wake.antt =====
-- indo-kernel/src/process/mod.rs: the wake-ups of blocked processes, and signals to the foreground group.
-- The lists of pids to wake have room for every slot, so their bound is never met.
pub mod Slots
pub mod Reasons
pub mod Revived
pub mod Readiness
mod Examples
use mathlib.Core.Option
use indominus_os.Prelude.{
  ℕ, zero, suc, ◌+◌, ◌-◌, ◌%◌, Bool, true, false, not, ◌&&◌, ◌||◌, Option, none, some, List, [],
  ◌∷◌, ltb, leb, ◌==◌, if◌then◌else◌, update,
}
use indominus_os.Process.{
  Process, WakeReason, no_reason, keyboard, sleep, pipe_read, pipe_write, wait_for_child, ready,
  zombie, blocked, is_ready, is_running, is_blocked, is_zombie, max_processes,
}
use indominus_os.Sched.{Scheduler, modify}
use indominus_os.Pipe.{Pipe, pipe_size, u32_mod}
use indominus_os.Pipe.Table.{max_pipes, Pipes}

unfoldable pub reader_ready : Pipe → Bool
reader_ready p = ltb p.nread p.nwrite || not p.write_open

abbrev pub has_room : Pipe → Bool
has_room p = ltb p.nwrite ((p.nread + pipe_size) % u32_mod)

unfoldable pub writer_ready : Pipe → Bool
writer_ready p = has_room p || not p.read_open

abbrev pub pipe_is : (Pipe → Bool) → Option Pipe → Bool
pipe_is test none = false
pipe_is test (some p) = test p

abbrev pub pipe_at : (Pipe → Bool) → ℕ → Pipes → Bool
pipe_at test idx pipes = if ltb idx max_pipes then pipe_is test (pipes idx) else false

abbrev pub slot_is : (Process → Bool) → Option Process → Bool
slot_is test none = false
slot_is test (some p) = test p

abbrev pub zombie_slot : ℕ → Scheduler → Bool
zombie_slot pid s =
    if ltb pid max_processes then slot_is (λ c. is_zombie c.state) (s.processes pid) else false

-- What a process is blocked on has happened.
abbrev pub reason_met : Pipes → Scheduler → WakeReason → Bool
reason_met pipes s no_reason = false
reason_met pipes s keyboard = true
reason_met pipes s (sleep deadline) = false
reason_met pipes s (pipe_read idx) = pipe_at reader_ready idx pipes
reason_met pipes s (pipe_write idx) = pipe_at writer_ready idx pipes
reason_met pipes s (wait_for_child pid) = zombie_slot pid s

abbrev pub should_wake : Pipes → Scheduler → Process → Bool
should_wake pipes s p = is_blocked p.state && reason_met pipes s p.wake_reason

-- Phase 1: the slots from i on, of `rounds` slots, that pass.
unfoldable pub collect : ℕ → ℕ → (ℕ → Bool) → List ℕ
collect zero i test = []
collect (suc rounds) i test =
    let rest = collect rounds (i + 1) test in if test i then i ∷ rest else rest

abbrev pub wake : Process → Process
wake p = record p { state = ready; wake_reason = no_reason }

-- Phase 2.
unfoldable pub wake_listed : List ℕ → Scheduler → Scheduler
wake_listed [] s = s
wake_listed (pid ∷ pids) s = wake_listed pids (modify pid wake s)

unfoldable pub keyboard_wake : Pipes → Scheduler → Scheduler
unfolding collect wake_listed reader_ready writer_ready
keyboard_wake pipes s =
    wake_listed (collect max_processes 0 (λ i. slot_is (should_wake pipes s) (s.processes i))) s

abbrev pub waits_for_or_any : ℕ → WakeReason → Bool
waits_for_or_any child (wait_for_child pid) = pid == child || pid == 0
waits_for_or_any child _ = false

unfoldable pub wake_wait_for_child : ℕ → Scheduler → Scheduler
unfolding collect wake_listed
wake_wait_for_child zombie_pid s =
    wake_listed
      (collect (max_processes - 1) 1 (λ i.
        slot_is (λ p. is_blocked p.state && waits_for_or_any zombie_pid p.wake_reason)
          (s.processes i)))
      s

-- `send_signal_to_fg`: the group of the first Running user process, or else of the first Ready one.
abbrev pub user_in : (Process → Bool) → Option Process → Bool
user_in test none = false
user_in test (some p) = p.is_user && test p

abbrev group_of : Option Process → Option ℕ
group_of none = none
group_of (some p) = some p.pgid

abbrev group_at : Option ℕ → Scheduler → Option ℕ
group_at none s = none
group_at (some i) s = group_of (s.processes i)

abbrev or_else : Option ℕ → Option ℕ → Option ℕ
or_else none other = other
or_else (some g) other = some g

abbrev head : List ℕ → Option ℕ
head [] = none
head (i ∷ is) = some i

-- The first slot from 1 on that passes.
abbrev first_user : (Process → Bool) → Scheduler → Option ℕ
first_user test s = head (collect (max_processes - 1) 1 (λ i. user_in test (s.processes i)))

unfoldable pub fg_group : Scheduler → Option ℕ
unfolding collect
fg_group s =
    or_else (group_at (first_user (λ p. is_running p.state) s) s)
      (group_at (first_user (λ p. is_ready p.state) s) s)

-- The processes that the signal is for.
abbrev pub targeted : ℕ → ℕ → Process → Bool
targeted signal group p =
    p.is_user && p.pgid == group && not (is_zombie p.state) && not (p.signals_blocked (signal - 1))

abbrev is_no_reason : WakeReason → Bool
is_no_reason no_reason = true
is_no_reason _ = false

abbrev is_kill : ℕ → Bool
is_kill signal = signal == 2 || signal == 3

unfoldable pub signal_process : ℕ → ℕ → Process → Process
signal_process signal group p =
    if not (targeted signal group p)
    then p
    else if is_kill signal
    then record p { state = zombie; exit_code = signal; terminated_by_signal = true }
    else if signal == 20
    then record p { state = blocked; wake_reason = no_reason; stop_signal = signal }
    else if signal == 18 && is_blocked p.state && is_no_reason p.wake_reason
    then record p { state = ready }
    else p

-- `for i in 1..MAX_PROCESSES`, where each process changes by itself.
abbrev pub each_task : (Process → Process) → Scheduler → Scheduler
each_task change s = record s {
  processes = λ i.
      if leb 1 i && ltb i max_processes then Option.map change (s.processes i) else s.processes i;
}

abbrev pid_at : Option Process → ℕ
pid_at none = 0
pid_at (some p) = p.pid

abbrev pids_at : List ℕ → Scheduler → List ℕ
pids_at [] s = []
pids_at (i ∷ is) s = pid_at (s.processes i) ∷ pids_at is s

-- The pids in the slots that the kill is for.
unfoldable pub killed_pids : ℕ → ℕ → Scheduler → List ℕ
unfolding collect
killed_pids signal group s =
    if is_kill signal
    then pids_at
        (collect (max_processes - 1) 1 (λ i. slot_is (targeted signal group) (s.processes i))) s
    else []

abbrev pub wake_parent : ℕ → Process → Process
wake_parent killed p = if waits_for_or_any killed p.wake_reason then wake p else p

unfoldable pub wake_parents : List ℕ → Scheduler → Scheduler
wake_parents [] s = s
wake_parents (killed ∷ rest) s = wake_parents rest (each_task (wake_parent killed) s)

abbrev pub signal_group : ℕ → Option ℕ → Scheduler → Scheduler
signal_group signal none s = s
signal_group signal (some group) s =
    wake_parents (killed_pids signal group s) (each_task (signal_process signal group) s)

-- The inline wake-ups at its end, of readers, writers and keyboard waiters.
abbrev pub inline_met : Pipes → WakeReason → Bool
inline_met pipes keyboard = true
inline_met pipes (pipe_read idx) = pipe_at reader_ready idx pipes
inline_met pipes (pipe_write idx) = pipe_at has_room idx pipes
inline_met pipes _ = false

unfoldable pub inline_wake : Pipes → Scheduler → Scheduler
unfolding reader_ready
inline_wake pipes s = record s {
  processes = λ i.
      if ltb i max_processes
        && slot_is (λ p. is_blocked p.state && inline_met pipes p.wake_reason) (s.processes i)
      then Option.map wake (s.processes i)
      else s.processes i;
}

unfoldable pub send_signal_to_fg : ℕ → Pipes → Scheduler → Scheduler
unfolding fg_group signal_process killed_pids wake_parents inline_wake
send_signal_to_fg signal pipes s = inline_wake pipes (signal_group signal (fg_group s) s)
