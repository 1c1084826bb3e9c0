-- ===== src/Sched/Running/Calls.antt =====
-- Sequences of the scheduler's operations, from the rest of the kernel.
use indominus_os.Prelude.{
  ℕ, ◌≡◌, refl, inl, inr, false, Option, none, some, List, [], ◌∷◌, arith, ◌==◌, update, Bool-cases,
}
use indominus_os.Process.{Process}
use indominus_os.Sched.{Scheduler, save_current_sp}
use indominus_os.Sched.Deliver.{Machine}
use indominus_os.Sched.Switch.{switch_next_force, kill_process, on_tick}
use indominus_os.Sched.Running.{slot_running, OneRunning, Calm, modify-OneRunning}
use indominus_os.Sched.Running.Kill.{kill_process-OneRunning, switch_next_force-OneRunning}
use indominus_os.Sched.Running.Tick.{on_tick-OneRunning}
use indominus_os.Sched.{save_in, new}
use indominus_os.Sched.Spawn.{
  spawn_kernel, spawn_user, spawn_kernel_in, spawn_user_in, kernel_process, user_process,
  reap_zombie, next_generation, free_slot, parent_gen,
}

-- The calls, with what each gets from the timer, the registers and the allocators.
pub data Call : Type 0 where
  tick : ℕ → Call
  force : Call
  kill : ℕ → Call
  save : ℕ → ℕ → Call
  spawn_kernel_task : Option ℕ → ℕ → Call
  spawn_user_task : Option ℕ → ℕ → Option ℕ → Call
  reap : ℕ → Call

unfoldable pub run_call : Call → Scheduler → Machine → Scheduler × Machine
unfolding on_tick switch_next_force kill_process save_current_sp spawn_kernel spawn_user reap_zombie
run_call (tick now) s m = (let (sp, t, m') = on_tick now s m in (t, m'))
run_call force s m = (let (sp, t, m') = switch_next_force s m in (t, m'))
run_call (kill init_pid) s m = ((kill_process init_pid s).1, m)
run_call (save sp cr3) s m = (save_current_sp sp cr3 s, m)
run_call (spawn_kernel_task stack pml4) s m = ((spawn_kernel stack pml4 s).1, m)
run_call (spawn_user_task stack pml4 parent) s m = ((spawn_user stack pml4 parent s).1, m)
run_call (reap pid) s m = (reap_zombie pid s, m)

unfoldable pub run_calls : List Call → Scheduler → Machine → Scheduler × Machine
unfolding run_call
run_calls [] s m = (s, m)
run_calls (c ∷ cs) s m = let (t, m') = run_call c s m in run_calls cs t m'

saved-Calm : (sp cr3 : ℕ) → Calm (λ p. record p { stack_pointer = sp; saved_cr3 = cr3 })
unfolding Calm
saved-Calm sp cr3 p h = h

save-OneRunning :
    (sp cr3 : ℕ) (s : Scheduler) → OneRunning s → OneRunning (save_current_sp sp cr3 s)
unfolding save_current_sp
save-OneRunning sp cr3 s one = go s.current_pid
  where
    go : (cur : Option ℕ) → OneRunning (save_in cur sp cr3 s)
    go none = one
    go (some pid) =
        modify-OneRunning pid (λ p. record p { stack_pointer = sp; saved_cr3 = cr3 }) s
          (saved-Calm sp cr3) one

update-OneRunning :
    (slot : ℕ) (o : Option Process) (generations : ℕ → ℕ) (s : Scheduler)
    → slot_running o ≡ false
    → OneRunning s
    → OneRunning (record s { processes = update s.processes slot o; generations = generations })
unfolding OneRunning
update-OneRunning slot o generations s off one i h = elim (Bool-cases (i == slot)) [
  | inl itself ↦ absurd (ground (arith, h, off))
  | inr other ↦ one i (ground (arith, h))
]

count-OneRunning : (slot : ℕ) (s : Scheduler) → OneRunning s → OneRunning (next_generation slot s)
unfolding OneRunning
count-OneRunning slot s one = one

spawn_kernel-OneRunning :
    (stack : Option ℕ) (pml4 : ℕ) (s : Scheduler)
    → OneRunning s
    → OneRunning (spawn_kernel stack pml4 s).1
unfolding spawn_kernel kernel_process
spawn_kernel-OneRunning stack pml4 s one = go (free_slot s) stack
  where
    go : (slot stack : Option ℕ) → OneRunning (spawn_kernel_in slot stack pml4 s).1
    go none stack = one
    go (some slot) none = count-OneRunning slot s one
    go (some slot) (some sp) =
        update-OneRunning slot
          (kernel_process (some sp) pml4 slot ((next_generation slot s).generations slot))
          (next_generation slot s).generations s refl one

spawn_user-OneRunning :
    (stack : Option ℕ) (pml4 : ℕ) (parent : Option ℕ) (s : Scheduler)
    → OneRunning s
    → OneRunning (spawn_user stack pml4 parent s).1
unfolding spawn_user user_process
spawn_user-OneRunning stack pml4 parent s one = go (free_slot s) stack
  where
    go : (slot stack : Option ℕ) → OneRunning (spawn_user_in slot stack pml4 parent s).1
    go none stack = one
    go (some slot) none = count-OneRunning slot s one
    go (some slot) (some sp) =
        update-OneRunning slot
          (user_process (some sp) pml4 parent (parent_gen parent s) slot
            ((next_generation slot s).generations slot))
          (next_generation slot s).generations s refl one

run_call-OneRunning :
    (c : Call) (s : Scheduler) (m : Machine) → OneRunning s → OneRunning (run_call c s m).0
unfolding run_call reap_zombie
run_call-OneRunning (tick now) s m one = on_tick-OneRunning now s m one
run_call-OneRunning force s m one = switch_next_force-OneRunning s m one
run_call-OneRunning (kill init_pid) s m one = kill_process-OneRunning init_pid s one
run_call-OneRunning (save sp cr3) s m one = save-OneRunning sp cr3 s one
run_call-OneRunning (spawn_kernel_task stack pml4) s m one =
    spawn_kernel-OneRunning stack pml4 s one
run_call-OneRunning (spawn_user_task stack pml4 parent) s m one =
    spawn_user-OneRunning stack pml4 parent s one
run_call-OneRunning (reap pid) s m one = update-OneRunning pid none s.generations s refl one

-- After any sequence of timer ticks, forced switches, kills, context saves, spawns and reaps that
-- starts where at most the current process is Running, signals delivered on the way included, again
-- no process but the current one is Running.
pub calls-OneRunning :
    (calls : List Call) (s : Scheduler) (m : Machine)
    → OneRunning s
    → OneRunning (run_calls calls s m).0
unfolding run_calls
calls-OneRunning [] s m one = one
calls-OneRunning (c ∷ cs) s m one =
    let (t, m') = run_call c s m in calls-OneRunning cs t m' (run_call-OneRunning c s m one)

pub new-OneRunning : OneRunning new
unfolding OneRunning new
new-OneRunning i h = cc h
