-- ===== src/Sched/Spawn.antt =====
-- The process slots in indo-kernel/src/process/scheduler.rs: spawning, children and reaping.
-- A process of a freed slot gives its memory back (`Drop`), which is not modelled here.
pub mod Families
use mathlib.Core.Option
use indominus_os.Prelude.{
  ℕ, zero, suc, ◌+◌, ◌-◌, ◌%◌, ◌^◌, Bool, true, false, not, ◌&&◌, ◌||◌, Option, none, some, ltb,
  ◌==◌, if◌then◌else◌, update, arith,
}
use indominus_os.Process.{
  Process, WakeReason, no_reason, max_processes, ready, is_zombie, is_blocked, new_kernel, new_user,
}
use indominus_os.Sched.{Scheduler}

-- The first slot from i on, of `rounds` slots, that passes the test.
unfoldable pub first_slot : ℕ → ℕ → (Option Process → Bool) → (ℕ → Option Process) → Option ℕ
first_slot zero i test processes = none
first_slot (suc rounds) i test processes =
    let rest = first_slot rounds (i + 1) test processes in
    if test (processes i) then some i else rest

abbrev pub is_free : Option Process → Bool
is_free none = true
is_free (some p) = false

-- `(1..MAX_PROCESSES).find(…)`
abbrev pub free_slot : Scheduler → Option ℕ
free_slot s = first_slot (max_processes - 1) 1 is_free s.processes

-- Slots of the generation table are `u32`.
abbrev pub next_generation : ℕ → Scheduler → Scheduler
next_generation slot s = record s {
  generations = update s.generations slot ((s.generations slot + 1) % 2 ^ 32);
}

abbrev pub place : ℕ → Process → Scheduler → Scheduler
place slot p s = record s { processes = update s.processes slot (some p) }

-- `stack` and `pml4` are what `Process::new_kernel` gets from the allocator and from CR3; without a
-- stack the kernel halts.
unfoldable pub spawn_idle : Option ℕ → ℕ → Scheduler → Option Scheduler
unfolding new_kernel
spawn_idle stack pml4 s =
    Option.map
      (λ p. record (place 0 (record p { state = ready; generation = 1 }) s) { idle_pid = 0 })
      (new_kernel 0 stack pml4)

-- On a failed allocation the slot's generation has been counted up already.
abbrev pub fill : ℕ → Option Process → Scheduler → Option ℕ × Scheduler
fill slot none s = (none, s)
fill slot (some p) s = (some slot, place slot p s)

unfoldable pub kernel_process : Option ℕ → ℕ → ℕ → ℕ → Option Process
unfolding new_kernel
kernel_process stack pml4 slot gen =
    Option.map {A = Process} (λ p. record p { state = ready; generation = gen })
      (new_kernel slot stack pml4)

abbrev pub spawn_kernel_in : Option ℕ → Option ℕ → ℕ → Scheduler → Option ℕ × Scheduler
spawn_kernel_in none stack pml4 s = (none, s)
spawn_kernel_in (some slot) stack pml4 s =
    let s' = next_generation slot s in
    fill slot (kernel_process stack pml4 slot (s'.generations slot)) s'

unfoldable pub spawn_kernel : Option ℕ → ℕ → Scheduler → Option ℕ × Scheduler
unfolding first_slot kernel_process
spawn_kernel stack pml4 s = spawn_kernel_in (free_slot s) stack pml4 s

abbrev pub generation_of : Option Process → ℕ
generation_of none = 0
generation_of (some p) = p.generation

abbrev pub parent_gen : Option ℕ → Scheduler → ℕ
parent_gen none s = 0
parent_gen (some p) s = if ltb p max_processes then generation_of (s.processes p) else 0

unfoldable pub user_process : Option ℕ → ℕ → Option ℕ → ℕ → ℕ → ℕ → Option Process
unfolding new_user
user_process stack pml4 parent of_parent slot gen =
    Option.map {A = Process} (λ p. record p { generation = gen; pgid = slot })
      (new_user slot stack pml4 parent of_parent)

-- The parent's generation is read before the slot's is counted up.
abbrev pub spawn_user_in : Option ℕ → Option ℕ → ℕ → Option ℕ → Scheduler → Option ℕ × Scheduler
spawn_user_in none stack pml4 parent s = (none, s)
spawn_user_in (some slot) stack pml4 parent s =
    let s' = next_generation slot s in
    fill slot (user_process stack pml4 parent (parent_gen parent s) slot (s'.generations slot)) s'

unfoldable pub spawn_user : Option ℕ → ℕ → Option ℕ → Scheduler → Option ℕ × Scheduler
unfolding first_slot user_process
spawn_user stack pml4 parent s = spawn_user_in (free_slot s) stack pml4 parent s

unfoldable pub get_generation : ℕ → Scheduler → ℕ
get_generation pid s = if ltb pid max_processes then s.generations pid else 0

abbrev pub is_parent : Option ℕ → ℕ → Bool
is_parent none parent = false
is_parent (some p) parent = p == parent

abbrev pub child_of : ℕ → ℕ → Option Process → Bool
child_of parent gen none = false
child_of parent gen (some p) = is_parent p.parent_pid parent && p.parent_generation == gen

unfoldable pub is_child_of : ℕ → ℕ → ℕ → Scheduler → Bool
is_child_of child_pid parent_pid gen s =
    if ltb child_pid max_processes then child_of parent_pid gen (s.processes child_pid) else false

abbrev pub zombie_child : ℕ → ℕ → Option Process → Bool
zombie_child parent gen none = false
zombie_child parent gen (some p) = child_of parent gen (some p) && is_zombie p.state

abbrev pub report_zombie : ℕ → Option ℕ → Scheduler → Option (ℕ × ℕ × ℕ)
report_zombie parent none s = none
report_zombie parent (some i) s = Option.map (λ p. (p.pid, parent, p.exit_code)) (s.processes i)

abbrev pub zombie_child_of : Option ℕ → Scheduler → Option (ℕ × ℕ × ℕ)
zombie_child_of none s = none
zombie_child_of (some parent) s =
    report_zombie parent
      (first_slot max_processes 0 (zombie_child parent (get_generation parent s)) s.processes) s

-- The child's pid, the parent's, and the exit code.
unfoldable pub find_any_zombie_child : Scheduler → Option (ℕ × ℕ × ℕ)
unfolding first_slot get_generation
find_any_zombie_child s = zombie_child_of s.current_pid s

abbrev is_no_reason : WakeReason → Bool
is_no_reason no_reason = true
is_no_reason _ = false

abbrev pub stopped_child : ℕ → ℕ → Option Process → Bool
stopped_child parent gen none = false
stopped_child parent gen (some p) =
    child_of parent gen (some p)
    && is_blocked p.state
    && is_no_reason p.wake_reason
    && not (p.stop_signal == 0)

unfoldable pub find_any_stopped_child : ℕ → ℕ → Scheduler → Option (ℕ × ℕ)
unfolding first_slot
find_any_stopped_child parent_pid gen s =
    elim (first_slot max_processes 0 (stopped_child parent_pid gen) s.processes) [
      | none ↦ none
      | some i ↦ Option.map (λ p. (p.pid, p.stop_signal)) (s.processes i)
    ]

unfoldable pub reap_zombie : ℕ → Scheduler → Scheduler
reap_zombie pid s = record s { processes = update s.processes pid none }
