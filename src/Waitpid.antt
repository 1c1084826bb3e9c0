-- ===== src/Waitpid.antt =====
-- `sys_waitpid` of indo-kernel/src/syscall/mod.rs, on the scheduler's table. The result comes with
-- the scheduler after the call; where the call blocks, the process is Blocked in it and the forced
-- switch that follows is `switch_next_force`.
pub mod Reaping
mod Examples
use mathlib.Core.Option
use indominus_os.Prelude.{
  ℕ, ◌+◌, ◌*◌, ◌^◌, ◌-◌, Bool, true, false, not, ◌&&◌, Option, none, some, ltb, ◌==◌, if◌then◌else◌,
  u64_mod, bit_and,
}
use indominus_os.Process.{Process, WakeReason, wait_for_child, max_processes, blocked, is_zombie}
use indominus_os.Sched.{Scheduler, modify}
use indominus_os.Sched.Spawn.{
  first_slot, get_generation, child_of, is_child_of, find_any_zombie_child, find_any_stopped_child,
  reap_zombie,
}
use indominus_os.Fds.{esrch}

abbrev pub has_wnohang : ℕ → Bool
has_wnohang flags = not (bit_and flags 1 == 0)

abbrev pub has_wuntraced : ℕ → Bool
has_wuntraced flags = not (bit_and flags 2 == 0)

abbrev pub is_some_slot : Option ℕ → Bool
is_some_slot none = false
is_some_slot (some i) = true

-- `i > 0 && …` over the slots
unfoldable pub has_children : ℕ → ℕ → Scheduler → Bool
unfolding first_slot
has_children parent gen s =
    is_some_slot (first_slot (max_processes - 1) 1 (child_of parent gen) s.processes)

-- Blocked until the child exits, or any child for 0.
unfoldable pub block_on : ℕ → ℕ → Scheduler → ℕ × Scheduler
block_on parent child s =
    (0, modify parent (λ p. record p { state = blocked; wake_reason = wait_for_child child }) s)

-- The stop signal of the slot, or 20.
abbrev pub stop_signal_of : Option Process → ℕ
stop_signal_of none = 20
stop_signal_of (some p) = p.stop_signal

-- Without a zombie and without a stopped child to report.
abbrev pub no_zombie : ℕ → ℕ → ℕ → Scheduler → ℕ × Scheduler
no_zombie parent gen flags s =
    if has_wnohang flags
    then (0, s)
    else if not (has_children parent gen s)
    then (esrch, s)
    else block_on parent 0 s

-- `c_pid << 16 | stop_sig << 8 | 0x7f`, with a signal below 2^8
abbrev pub report_stopped : Option (ℕ × ℕ) → ℕ → ℕ → ℕ → Scheduler → ℕ × Scheduler
report_stopped none parent gen flags s = no_zombie parent gen flags s
report_stopped (some (child, stop)) parent gen flags s =
    (child * 2 ^ 16 + stop_signal_of (s.processes child) * 2 ^ 8 + 0x7F, s)

abbrev pub slot_zombie : Option Process → Bool
slot_zombie none = false
slot_zombie (some p) = is_zombie p.state

-- Step 2: what to do about the child that was found.
unfoldable pub act_on : ℕ → ℕ → ℕ → Scheduler → ℕ × Scheduler
unfolding block_on reap_zombie
act_on found parent flags s =
    if slot_zombie (s.processes found)
    then (found, reap_zombie found s)
    else if has_wnohang flags
    then (0, s)
    else block_on parent found s

abbrev pub wait_any : Option (ℕ × ℕ × ℕ) → ℕ → ℕ → ℕ → Scheduler → ℕ × Scheduler
wait_any (some (child, _, _)) parent gen flags s = act_on child parent flags s
wait_any none parent gen flags s =
    if has_wuntraced flags
    then report_stopped (find_any_stopped_child parent gen s) parent gen flags s
    else no_zombie parent gen flags s

-- A child of the current process has a slot, so that the empty slot of the code is not reached.
abbrev pub wait_for : ℕ → ℕ → ℕ → ℕ → Scheduler → ℕ × Scheduler
wait_for child parent gen flags s =
    if not (is_child_of child parent gen s) then (esrch, s) else act_on child parent flags s

abbrev pub waitpid_by : Option ℕ → ℕ → ℕ → Scheduler → ℕ × Scheduler
waitpid_by none child flags s = (esrch, s)
waitpid_by (some parent) child flags s =
    let gen = get_generation parent s in
    if child == 0
    then wait_any (find_any_zombie_child s) parent gen flags s
    else wait_for child parent gen flags s

unfoldable pub sys_waitpid : ℕ → ℕ → Scheduler → ℕ × Scheduler
unfolding get_generation is_child_of find_any_zombie_child find_any_stopped_child has_children
    act_on
sys_waitpid child flags s = waitpid_by s.current_pid child flags s
