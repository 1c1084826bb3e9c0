-- ===== src/Sched/Next.antt =====
-- What `find_next_ready` of indo-kernel/src/process/scheduler.rs returns.
use indominus_os.Prelude.{
  ℕ, zero, suc, ◌+◌, ◌-◌, ◌%◌, ◌≡◌, ◌≤◌, ◌<◌, ◌⊎◌, refl, inl, inr, Bool, true, false, not, ◌||◌,
  Option, none, some, arith, ltb, ◌==◌, if◌then◌else◌, Bool-cases,
}
use indominus_os.Process.{max_processes}
use indominus_os.Sched.{Scheduler, slot_ready, scan_ready, find_next_ready}

-- The slot `i` steps round the table from `start`.
abbrev pub circ : ℕ → ℕ → ℕ
circ start i = (start + i) % max_processes

-- A slot that pass 1 passes over: idle, or nothing Ready in it.
abbrev pub skipped : Scheduler → ℕ → Bool
skipped s pid = pid == s.idle_pid || not (slot_ready (s.processes pid))

abbrev Scanned : ℕ → ℕ → ℕ → Scheduler → Option ℕ → Type 0
Scanned lo hi start s r =
    ((r ≡ none) × ((j : ℕ) → lo ≤ j → j < hi → skipped s (circ start j) ≡ true))
    ⊎ ((k : ℕ) × (lo ≤ k)
        × (k < hi)
        × (skipped s (circ start k) ≡ false)
        × ((j : ℕ) → lo ≤ j → j < k → skipped s (circ start j) ≡ true)
        × (r ≡ some (circ start k)))

scan_ready-Scanned :
    (rounds i hi start : ℕ) (s : Scheduler)
    → rounds + i ≡ hi
    → Scanned i hi start s (scan_ready rounds i start s)
unfolding scan_ready
scan_ready-Scanned zero i hi start s e = inl (refl, λ j lo lt. absurd (omega arith))
scan_ready-Scanned (suc r) i hi start s e = elim (Bool-cases (skipped s (circ start i))) [
  | inr stop ↦
      inr (i, omega arith, omega arith, stop, λ j lo lt. absurd (omega arith), ground arith)
  | inl pass ↦ elim (scan_ready-Scanned r (i + 1) hi start s (omega arith)) [
    | inl (nothing, all) ↦ inl (ground (arith, nothing), λ j lo lt. from_next hi pass all j lo lt)
    | inr (k, lo, lt, stop, before, found) ↦ inr (
      k,
      omega arith,
      lt,
      stop,
      λ j lo' lt'. from_next k pass before j lo' lt',
      ground (arith, found),
    )
  ]
]
  where
    from_next :
        (end : ℕ)
        → skipped s (circ start i) ≡ true
        → ((j : ℕ) → i + 1 ≤ j → j < end → skipped s (circ start j) ≡ true)
        → (j : ℕ) → i ≤ j
        → j < end
        → skipped s (circ start j) ≡ true
    from_next end pass rest j lo lt = elim (Bool-cases (i == j)) [
      | inl self ↦ let e' : i ≡ j = ground arith in rw e' at pass
      | inr other ↦ rest j (ground arith) lt
    ]

-- The pid that `find_next_ready` returns is the first Ready one after `after_pid` in the circular
-- order of the table, the idle pid passed over; only if no other process is Ready it is the idle pid,
-- if that is Ready, and else nothing.
pub find_next_ready_lem :
    (after_pid : ℕ) (s : Scheduler)
    → ((k : ℕ) × (k < max_processes)
        × (skipped s (circ ((after_pid + 1) % max_processes) k) ≡ false)
        × ((j : ℕ) → j < k → skipped s (circ ((after_pid + 1) % max_processes) j) ≡ true)
        × (find_next_ready after_pid s ≡ some (circ ((after_pid + 1) % max_processes) k)))
      ⊎ (((pid : ℕ) → pid < max_processes → skipped s pid ≡ true)
          × (find_next_ready after_pid s
              ≡ (if slot_ready (s.processes s.idle_pid) then some s.idle_pid else none)))
unfolding find_next_ready
find_next_ready_lem after_pid s =
    elim (scan_ready-Scanned max_processes 0 max_processes ((after_pid + 1) % max_processes) s
      (omega arith)) [
        | inr (k, lo, lt, stop, before, found) ↦
            inl (k, lt, stop, λ j lt'. before j (omega arith) lt', rw found)
        | inl (nothing, all) ↦ inr (λ pid lt. around all pid lt, rw nothing)
      ]
  where
    around :
        ((j : ℕ)
          → 0 ≤ j
          → j < max_processes
          → skipped s (circ ((after_pid + 1) % max_processes) j) ≡ true)
        → (pid : ℕ) → pid < max_processes
        → skipped s pid ≡ true
    around all pid lt =
        let start = (after_pid + 1) % max_processes in
        let j = (pid + max_processes - start) % max_processes in
        let back : circ start j ≡ pid = omega arith in
        rw back at (all j (omega arith) (omega arith))

-- How far a process stands behind `after_pid` in the circular order.
abbrev pub gap : ℕ → ℕ → ℕ
gap after_pid pid = (pid + (max_processes - 1) - after_pid) % max_processes

circ-gap :
    (after_pid pid : ℕ)
    → after_pid < max_processes
    → pid < max_processes
    → circ ((after_pid + 1) % max_processes) (gap after_pid pid) ≡ pid
circ-gap after_pid pid la lp = omega arith

gap-circ :
    (after_pid pid k : ℕ)
    → after_pid < max_processes
    → pid < max_processes
    → k < gap after_pid pid
    → gap (circ ((after_pid + 1) % max_processes) k) pid < gap after_pid pid
gap-circ after_pid pid k la lp near = omega arith

-- A Ready process is chosen next, or one that stands before it, which brings it nearer.
pub find_next_ready-gap :
    (after_pid pid : ℕ) (s : Scheduler)
    → after_pid < max_processes
    → pid < max_processes
    → skipped s pid ≡ false
    → (q : ℕ) × (find_next_ready after_pid s ≡ some q)
      × (q < max_processes)
      × ((q ≡ pid) ⊎ (gap q pid < gap after_pid pid))
find_next_ready-gap after_pid pid s la lp stays = elim (find_next_ready_lem after_pid s) [
  | inr (none_ready, result) ↦ cc (none_ready pid lp, stays)
  | inl (k, lt, stop, before, found) ↦
      (circ ((after_pid + 1) % max_processes) k, found, omega arith, nearer k lt before)
]
  where
    nearer :
        (k : ℕ)
        → k < max_processes
        → ((j : ℕ) → j < k → skipped s (circ ((after_pid + 1) % max_processes) j) ≡ true)
        → (circ ((after_pid + 1) % max_processes) k ≡ pid)
          ⊎ (gap (circ ((after_pid + 1) % max_processes) k) pid < gap after_pid pid)
    nearer k lt before =
        let g = gap after_pid pid in
        let at_gap : circ ((after_pid + 1) % max_processes) g ≡ pid =
          circ-gap after_pid pid la lp in
        elim (Bool-cases (ltb g k)) [
          | inl past ↦
              let passed : skipped s pid ≡ true = rw at_gap at (before g (ground arith)) in
              cc (passed, stays)
          | inr upto ↦ elim (Bool-cases (k == g)) [
            | inl there ↦ let e : k ≡ g = ground arith in inl (rw e at_gap)
            | inr short ↦ inr (gap-circ after_pid pid k la lp (ground arith))
          ]
        ]
