-- ===== src/Sched/Examples.antt =====
-- The scheduler's theorems at concrete tables.
use indominus_os.Prelude.{ℕ, ◌≡◌, refl, false, none, some, List, [], ◌∷◌, arith, update}
use indominus_os.Process.{wait_for_child, ready, running, blocked, blank}
use indominus_os.Sched.{Scheduler, new}
use indominus_os.Sched.Fair.{Keeps, picks, Occurs, switches_fair}
use indominus_os.Sched.Deliver.{Machine, deliver_default}
use indominus_os.Sched.Running.{OneRunning}
use indominus_os.Sched.Running.Calls.{
  Call, tick, force, kill, spawn_user_task, reap, run_call, run_calls, calls-OneRunning,
  new-OneRunning,
}
use indominus_os.Sched.Spawn.{spawn_idle, spawn_user, get_generation, is_child_of, reap_zombie}
use indominus_os.Sched.Kinship.Calls.{calls_no_children}
use indominus_os.Sched.Waiting.{deliver_default_any_child}

-- The idle process, process 1 running and process 2 Ready.
abbrev three : Scheduler
three = record new {
  processes =
      update
        (update (update (λ _. none) 0 (some blank)) 1
          (some (record blank { pid = 1; state = running; generation = 1 })))
        2 (some (record blank { pid = 2; generation = 1 }));
  generations = update (update (λ _. 0) 1 1) 2 1;
  current_pid = some 1;
}

abbrev nothing_happens : Scheduler → Scheduler
nothing_happens s = s

nothing-Keeps : (pid : ℕ) → Keeps pid nothing_happens
nothing-Keeps pid = record {
  stays_ready = λ s h. h;
  same_current = λ s. refl;
  same_idle = λ s. refl;
}

switches_fair_example : Occurs 2 (picks (nothing_happens ∷ []) three)
unfolding new
switches_fair_example =
    switches_fair (nothing_happens ∷ []) 2 1 three (nothing-Keeps 2, tt) refl (omega arith)
      (omega arith) refl refl (omega arith)

abbrev no_memory : Machine
no_memory = record { kernel = λ _. 0; user = λ _ _. 0 }

calls-OneRunning_example :
    OneRunning
      (run_calls
        (spawn_user_task (some 64) 4096 none ∷ tick 1 ∷ force ∷ kill 1 ∷ reap 1 ∷ [])
        new
        no_memory).0
calls-OneRunning_example =
    calls-OneRunning (spawn_user_task (some 64) 4096 none ∷ tick 1 ∷ force ∷ kill 1 ∷ reap 1 ∷ [])
      new no_memory new-OneRunning

-- Process 1 is alone and has ended; an orphan of an earlier process 2 is left in slot 3.
abbrev orphaned : Scheduler
orphaned = record new {
  processes =
      update (update (λ _. none) 1 (some blank)) 3
        (some (record blank { pid = 3; parent_pid = some 2; parent_generation = 1 }));
  generations = update (λ _. 0) 2 1;
}

-- The boot, and a family of which process 2 is reaped while its child, process 3, lives on.
abbrev at_boot : Scheduler
at_boot = record new {
  processes =
      update new.processes 0 (
        some
          (record blank { stack_pointer = 64; pml4_phys = 4096; state = ready; generation = 1 }));
  idle_pid = 0;
}

abbrev family : List Call
family =
    spawn_user_task (some 64) 4096 none
    ∷ spawn_user_task (some 64) 4096 (some 1)
    ∷ spawn_user_task (some 64) 4096 (some 2)
    ∷ reap 2
    ∷ []

calls_no_children_example :
    let s' = (spawn_user (some 64) 4096 (some 1) (run_calls family at_boot no_memory).0).1 in
    is_child_of 3 2 (get_generation 2 s') s' ≡ false
unfolding spawn_idle spawn_user run_calls run_call reap_zombie new
calls_no_children_example =
    calls_no_children family no_memory (some 64) 4096 at_boot (some 64) 4096 (some 1) 2 3 refl
      (omega arith) refl

deliver_default_any_child_example :
    (deliver_default 3 9 (record orphaned {
      processes =
          update orphaned.processes 2
            (some (record blank { wake_reason = wait_for_child 0; state = blocked }));
    })).processes
      2
    ≡ some (record blank { wake_reason = wait_for_child 0; state = blocked })
deliver_default_any_child_example =
    deliver_default_any_child 3 2 9
      (record orphaned {
        processes =
            update orphaned.processes 2
              (some (record blank { wake_reason = wait_for_child 0; state = blocked }));
      })
      (record blank { wake_reason = wait_for_child 0; state = blocked }) (omega arith)
      (λ e. omega (arith, e)) refl refl
