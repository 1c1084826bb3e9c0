-- ===== src/Wake/Revived.antt =====
-- What `send_signal_to_fg` does to a process that waits for its children.
use indominus_os.Prelude.{
  ℕ, zero, suc, ◌+◌, ◌-◌, ◌≡◌, ◌≤◌, ◌<◌, refl, ap, sym, ◌∙◌, subst, inl, inr, Bool, true, false,
  ◌&&◌, some, List, [], ◌∷◌, ltb, leb, ◌==◌, arith, Bool-cases,
}
use indominus_os.Process.{Process, no_reason, wait_for_child, zombie, is_blocked, max_processes}
use indominus_os.Sched.{Scheduler}
use indominus_os.Pipe.Table.{Pipes}
use indominus_os.Wake.{
  collect, slot_is, targeted, signal_process, each_task, pids_at, pid_at, killed_pids, wake,
  wake_parent, waits_for_or_any, wake_parents, signal_group, fg_group, inline_wake,
  send_signal_to_fg,
}

-- The process after the kill.
abbrev pub killed_by : ℕ → Process → Process
killed_by signal p = record p { state = zombie; exit_code = signal; terminated_by_signal = true }

each_task-at :
    (change : Process → Process) (s : Scheduler) (i : ℕ) (p : Process)
    → 0 < i
    → i < max_processes
    → s.processes i ≡ some p
    → (each_task change s).processes i ≡ some (change p)
each_task-at change s i p above below there =
    let in_table : (leb 1 i && ltb i max_processes) ≡ true = ground arith in
    rw (in_table, there) refl

collect_some :
    (r k i : ℕ) (test : ℕ → Bool)
    → k ≤ i
    → i < k + r
    → test i ≡ true
    → (a : ℕ) × (rest : List ℕ) × (collect r k test ≡ a ∷ rest)
unfolding collect
collect_some zero k i test lo hi passing = absurd (omega arith)
collect_some (suc r) k i test lo hi passing = elim (Bool-cases (test k)) [
  | inl here ↦ (k, collect r (k + 1) test, rw here refl)
  | inr passes ↦ elim (Bool-cases (k == i)) [
    | inl same ↦
        let e : k ≡ i = ground (arith, same) in
        let here : test k ≡ true = subst (λ x. test x ≡ true) (sym e) passing in cc (here, passes)
    | inr other ↦
        let (a, rest, found) =
          collect_some r (k + 1) i test (ground (arith, other)) (omega arith) passing in
        (a, rest, rw passes found)
  ]
]

-- A process that waits for nothing is left alone.
wake_parents-kept :
    (killed : List ℕ) (s : Scheduler) (i : ℕ) (p : Process)
    → 0 < i
    → i < max_processes
    → p.wake_reason ≡ no_reason
    → s.processes i ≡ some p
    → (wake_parents killed s).processes i ≡ some p
unfolding wake_parents
wake_parents-kept [] s i p above below idle there = there
wake_parents-kept (k ∷ ks) s i p above below idle there =
    let none_waits : waits_for_or_any k p.wake_reason ≡ false = rw idle refl in
    let kept : wake_parent k p ≡ p = rw none_waits refl in
    wake_parents-kept ks (each_task (wake_parent k) s) i p above below idle
      (each_task-at (wake_parent k) s i p above below there ∙ ap some kept)

wake_parents-woken :
    (k : ℕ) (ks : List ℕ) (s : Scheduler) (i : ℕ) (p : Process)
    → 0 < i
    → i < max_processes
    → p.wake_reason ≡ wait_for_child 0
    → s.processes i ≡ some p
    → (wake_parents (k ∷ ks) s).processes i ≡ some (wake p)
unfolding wake_parents
wake_parents-woken k ks s i p above below waits there =
    let any : waits_for_or_any k p.wake_reason ≡ true = rw waits (ground arith) in
    let woken : wake_parent k p ≡ wake p = rw any refl in
    wake_parents-kept ks (each_task (wake_parent k) s) i (wake p) above below refl
      (each_task-at (wake_parent k) s i p above below there ∙ ap some woken)

inline_wake-kept :
    (pipes : Pipes) (s : Scheduler) (i : ℕ) (p : Process)
    → is_blocked p.state ≡ false
    → s.processes i ≡ some p
    → (inline_wake pipes s).processes i ≡ some p
unfolding inline_wake
inline_wake-kept pipes s i p awake there = rw (there, awake) (ground arith)

-- A process of the foreground group that waits for any of its children survives SIGINT: the kill makes
-- it a Zombie and, in the same call, the wake-up of parents makes it Ready again, with the exit code
-- and the mark of a killed process.
pub send_signal_to_fg_revives :
    (pipes : Pipes) (s : Scheduler) (i group : ℕ) (p : Process)
    → 0 < i
    → i < max_processes
    → s.processes i ≡ some p
    → fg_group s ≡ some group
    → targeted 2 group p ≡ true
    → p.wake_reason ≡ wait_for_child 0
    → (send_signal_to_fg 2 pipes s).processes i ≡ some (wake (killed_by 2 p))
unfolding send_signal_to_fg signal_process killed_pids
send_signal_to_fg_revives pipes s i group p above below there fg hit waits =
    let kills : signal_process 2 group p ≡ killed_by 2 p = rw hit refl in
    let s1 = each_task (signal_process 2 group) s in
    let dead : s1.processes i ≡ some (killed_by 2 p) =
      each_task-at (signal_process 2 group) s i p above below there ∙ ap some kills in
    let listed : slot_is (targeted 2 group) (s.processes i) ≡ true = rw there hit in
    let (a, rest, found) =
      collect_some (max_processes - 1) 1 i (λ j. slot_is (targeted 2 group) (s.processes j)) above
        (omega arith) listed in
    let revived : (wake_parents (killed_pids 2 group s) s1).processes i
        ≡ some (wake (killed_by 2 p)) =
      ap (λ l. (wake_parents (pids_at l s) s1).processes i) found
      ∙ wake_parents-woken (pid_at (s.processes a)) (pids_at rest s) s1 i (killed_by 2 p) above
          below waits dead in
    ap (λ g. (inline_wake pipes (signal_group 2 g s)).processes i) fg
    ∙ inline_wake-kept pipes (signal_group 2 (some group) s) i (wake (killed_by 2 p)) refl revived
