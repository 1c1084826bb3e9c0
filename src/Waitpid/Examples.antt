-- ===== src/Waitpid/Examples.antt =====
-- A parent and its zombie.
use indominus_os.Prelude.{
  ℕ, ◌≡◌, ◌⊎◌, refl, inl, inr, true, none, some, ◌==◌, update, arith, Bool-cases,
}
use indominus_os.Process.{Process, blank, zombie}
use indominus_os.Sched.{Scheduler, new}
use indominus_os.Sched.Spawn.{get_generation, zombie_child}
use indominus_os.Waitpid.{sys_waitpid}
use indominus_os.Waitpid.Reaping.{InOwnSlot, sys_waitpid_reaps}

abbrev any_child : ℕ
any_child = 0

abbrev parent : Process
parent = record blank { pid = 1 }

abbrev dead_child : Process
dead_child = record blank { pid = 3; state = zombie; parent_pid = some 1; parent_generation = 0 }

abbrev family : Scheduler
family = record new {
  processes = update (update (λ _. none) 1 (some parent)) 3 (some dead_child);
  generations = λ _. 0;
  current_pid = some 1;
}

family-InOwnSlot : InOwnSlot family
unfolding new
family-InOwnSlot i p e = elim (Bool-cases (3 == i)) [
  | inl third ↦
      let q : some dead_child ≡ some p = ground (arith, e, third) in
      let pid : p.pid ≡ 3 = cc q in ground (arith, pid, third)
  | inr other ↦ elim (Bool-cases (1 == i)) [
    | inl first ↦
        let q : some parent ≡ some p = ground (arith, e, other, first) in
        let pid : p.pid ≡ 1 = cc q in ground (arith, pid, first)
    | inr away ↦ let q : none ≡ some p = ground (arith, e, other, away) in absurd cc
  ]
]

gone : (sys_waitpid 0 0 family).1.processes 3 ≡ none
unfolding sys_waitpid new
gone = refl

sys_waitpid_reaps_example :
    (zombie_child 1 (get_generation 1 family) (some dead_child) ≡ true)
    × ((sys_waitpid 0 0 family).0 ≡ 3)
    × ((any_child ≡ 0) ⊎ (any_child ≡ 3))
unfolding new
sys_waitpid_reaps_example =
    sys_waitpid_reaps family 3 dead_child refl 0 0 1 family-InOwnSlot refl gone
