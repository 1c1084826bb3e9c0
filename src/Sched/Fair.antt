-- ===== src/Sched/Fair.antt =====
-- How long a Ready process of indo-kernel/src/process/scheduler.rs waits for its switch.
use indominus_os.Prelude.{
  ℕ, ◌≡◌, ◌<◌, ◌⊎◌, refl, ap, ◌∙◌, inl, inr, true, false, some, List, [], ◌∷◌, All, length, arith,
  ◌==◌, Bool-cases,
}
use indominus_os.Process.{max_processes}
use indominus_os.Sched.{
  Scheduler, slot_ready, find_next_ready, or_pid, pick_next, run_next, preempt_current, switch_next,
}
use indominus_os.Sched.Next.{skipped, gap, find_next_ready-gap}

-- What happens between two switches, as far as the process `pid` is concerned: it stays Ready, and
-- the current and the idle pid are not touched. Other processes may block, exit, wake or be spawned.
pub record Keeps (pid : ℕ) (between : Scheduler → Scheduler) : Type 0 where
  pub stays_ready :
      (s : Scheduler)
      → slot_ready (s.processes pid) ≡ true
      → slot_ready ((between s).processes pid) ≡ true
  pub same_current : (s : Scheduler) → (between s).current_pid ≡ s.current_pid
  pub same_idle : (s : Scheduler) → (between s).idle_pid ≡ s.idle_pid

-- The pids that successive switches pick.
pub picks : List (Scheduler → Scheduler) → Scheduler → List ℕ
picks [] s = []
picks (between ∷ rest) s =
    let s' = (switch_next (between s)).1 in or_pid s'.current_pid 0 ∷ picks rest s'

abbrev pub Occurs : ℕ → List ℕ → Type 0
Occurs a [] = ⊥
Occurs a (b ∷ bs) = (b ≡ a) ⊎ Occurs a bs

preempt-ready :
    (old pid : ℕ) (s : Scheduler)
    → slot_ready (s.processes pid) ≡ true
    → slot_ready ((preempt_current (some old) s).processes pid) ≡ true
unfolding preempt_current
preempt-ready old pid s h = ground arith

pick_next-found :
    (old q : ℕ) (s : Scheduler)
    → s.current_pid ≡ some old
    → find_next_ready old s ≡ some q
    → pick_next s ≡ q
unfolding pick_next
pick_next-found old q s cur found =
    ap (λ c. or_pid (find_next_ready (or_pid c 0) s) s.idle_pid) cur
    ∙ ap (λ r. or_pid r s.idle_pid) found

preempt-current :
    (old : ℕ) (s : Scheduler) → (preempt_current (some old) s).current_pid ≡ s.current_pid
unfolding preempt_current
preempt-current old s = refl

switch_next-run :
    (s : Scheduler)
    → (switch_next s).1
      ≡ run_next (pick_next (preempt_current s.current_pid s)) (preempt_current s.current_pid s)
unfolding switch_next
switch_next-run s = refl

switch_next-picks :
    (old q : ℕ) (s : Scheduler)
    → s.current_pid ≡ some old
    → find_next_ready old (preempt_current (some old) s) ≡ some q
    → (switch_next s).1 ≡ run_next q (preempt_current (some old) s)
switch_next-picks old q s cur found =
    let s' = preempt_current (some old) s in
    switch_next-run s
    ∙ ap (λ c. run_next (pick_next (preempt_current c s)) (preempt_current c s)) cur
    ∙ ap (λ n. run_next n s') (pick_next-found old q s' (preempt-current old s ∙ cur) found)

run_next-ready :
    (q pid : ℕ) (s : Scheduler)
    → (pid == q) ≡ false
    → slot_ready (s.processes pid) ≡ true
    → slot_ready ((run_next q s).processes pid) ≡ true
unfolding run_next
run_next-ready q pid s other rdy = ground arith

-- One switch picks the process or one nearer to it; in the second case it is still Ready.
switch_next-gap :
    (old pid : ℕ) (s : Scheduler)
    → s.current_pid ≡ some old
    → old < max_processes
    → pid < max_processes
    → (pid == s.idle_pid) ≡ false
    → slot_ready (s.processes pid) ≡ true
    → (q : ℕ) × ((switch_next s).1.current_pid ≡ some q)
      × ((switch_next s).1.idle_pid ≡ s.idle_pid)
      × (q < max_processes)
      × ((q ≡ pid)
          ⊎ ((gap q pid < gap old pid) × (slot_ready ((switch_next s).1.processes pid) ≡ true)))
unfolding run_next preempt_current
switch_next-gap old pid s cur lo lp busy rdy =
    let s' = preempt_current (some old) s in
    let still : slot_ready (s'.processes pid) ≡ true = preempt-ready old pid s rdy in
    let stays : skipped s' pid ≡ false = rw (busy, still) in
    let (q, found, lq, near) = find_next_ready-gap old pid s' lo lp stays in
    let next = switch_next-picks old q s cur found in
    (q, ap (λ t. t.current_pid) next, ap (λ t. t.idle_pid) next, lq, nearer q next still near)
  where
    nearer :
        (q : ℕ)
        → (switch_next s).1 ≡ run_next q (preempt_current (some old) s)
        → slot_ready ((preempt_current (some old) s).processes pid) ≡ true
        → (q ≡ pid) ⊎ (gap q pid < gap old pid)
        → (q ≡ pid)
          ⊎ ((gap q pid < gap old pid) × (slot_ready ((switch_next s).1.processes pid) ≡ true))
    nearer q next still (inl there) = inl there
    nearer q next still (inr near) = elim (Bool-cases (pid == q)) [
      | inl itself ↦ inl (ground arith)
      | inr other ↦ inr (
        near,
        ap (λ t. slot_ready (t.processes pid)) next
            ∙ run_next-ready q pid (preempt_current (some old) s) other still,
      )
    ]

-- Round robin does not starve a process other than the idle one, which the scan skips: a process in a
-- slot below 32 that is Ready, and that what happens between the switches leaves Ready, is among the
-- choices of the next `gap + 1` switches, where `gap`, below 32, is its distance behind the current
-- pid, itself below 32. Between switches the current and the idle pid stay as they are; the other
-- processes may change in any way.
pub switches_fair :
    (between : List (Scheduler → Scheduler)) (pid old : ℕ) (s : Scheduler)
    → All (Keeps pid) between
    → s.current_pid ≡ some old
    → old < max_processes
    → pid < max_processes
    → (pid == s.idle_pid) ≡ false
    → slot_ready (s.processes pid) ≡ true
    → gap old pid < length between
    → Occurs pid (picks between s)
unfolding picks
switches_fair [] pid old s keeps cur lo lp busy rdy near = absurd (omega arith)
switches_fair (f ∷ fs) pid old s (k, ks) cur lo lp busy rdy near =
    let (q, current, idle, lq, goes) =
      switch_next-gap old pid (f s) (k.same_current s ∙ cur) lo lp
        (ap (λ i. pid == i) (k.same_idle s) ∙ busy) (k.stays_ready s rdy) in
    let chosen : or_pid (switch_next (f s)).1.current_pid 0 ≡ q = ap (λ c. or_pid c 0) current in
    elim goes [
      | inl there ↦ inl (chosen ∙ there)
      | inr (nearer, still) ↦ inr (
          switches_fair fs pid q (switch_next (f s)).1 ks current lq lp
            (ap (λ i. pid == i) (idle ∙ k.same_idle s) ∙ busy) still (omega arith))
    ]
