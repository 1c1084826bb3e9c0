-- ===== src/Wake/Reasons.antt =====
-- Which processes `keyboard_wake` of indo-kernel/src/process/mod.rs wakes, by what they wait for.
use indominus_os.Prelude.{
  ℕ, ◌≡◌, ◌<◌, ◌⊎◌, refl, sym, ◌∙◌, inl, inr, Bool, true, false, Option, none, some, ltb, length,
  arith, Bool-cases,
}
use indominus_os.Process.{
  Process, ProcessState, WakeReason, no_reason, keyboard, sleep, pipe_read, pipe_write,
  wait_for_child, ready, running, blocked, zombie, is_blocked, is_zombie, max_processes,
}
use indominus_os.Sched.{Scheduler}
use indominus_os.Pipe.{Pipe, pipe_size}
use indominus_os.Pipe.Table.{Pipes, max_pipes}
use indominus_os.Pipe.Fifo.{Inv, contents, length-contents}
use indominus_os.Wake.{
  reader_ready, writer_ready, pipe_is, pipe_at, slot_is, zombie_slot, reason_met, should_wake,
  keyboard_wake,
}
use indominus_os.Wake.Slots.{keyboard_wake_lem}

-- The pipes of the table are consistent.
abbrev pub AllInv : Pipes → Type 0
AllInv pipes = (idx : ℕ) (p : Pipe) → pipes idx ≡ some p → Inv p

-- The index is that of a pipe of the table, and the pipe is so.
abbrev PipeAt : (Pipe → Type 0) → ℕ → Pipes → Type 0
PipeAt Q idx pipes = (idx < max_pipes) × (p : Pipe) × (pipes idx ≡ some p) × Q p

-- A read has bytes to take, or no more will come.
abbrev Readable : Pipe → Type 0
Readable p = (0 < length (contents p)) ⊎ (p.write_open ≡ false)

-- A write has room for a byte, or nobody will read it.
abbrev Writable : Pipe → Type 0
Writable p = (length (contents p) < pipe_size) ⊎ (p.read_open ≡ false)

-- The slot of the table holds a Zombie.
abbrev Ended : ℕ → Scheduler → Type 0
Ended pid s =
    (pid < max_processes) × (q : Process) × (s.processes pid ≡ some q) × (q.state ≡ zombie)

-- What a process waits for has come: a key; a pipe that it can go on with; the end of the child in the
-- slot that it names.
unfoldable pub Over : Pipes → Scheduler → WakeReason → Type 0
Over pipes s no_reason = ⊥
Over pipes s keyboard = Unit
Over pipes s (sleep deadline) = ⊥
Over pipes s (pipe_read idx) = PipeAt Readable idx pipes
Over pipes s (pipe_write idx) = PipeAt Writable idx pipes
Over pipes s (wait_for_child pid) = Ended pid s

is_blocked_eq : (st : ProcessState) → is_blocked st ≡ true → st ≡ blocked
is_blocked_eq ready e = cc e
is_blocked_eq running e = cc e
is_blocked_eq blocked e = refl
is_blocked_eq zombie e = cc e

is_zombie_eq : (st : ProcessState) → is_zombie st ≡ true → st ≡ zombie
is_zombie_eq ready e = cc e
is_zombie_eq running e = cc e
is_zombie_eq blocked e = cc e
is_zombie_eq zombie e = refl

reader_ready-Readable : (p : Pipe) → Inv p → reader_ready p ≡ true → Readable p
unfolding reader_ready
reader_ready-Readable p v is = elim (Bool-cases p.write_open) [
  | inr closed ↦ inr closed
  | inl opened ↦ inl (ground (arith, length-contents p, is, opened))
]

Readable-reader_ready : (p : Pipe) → Inv p → Readable p → reader_ready p ≡ true
unfolding reader_ready
Readable-reader_ready p v (inl some_left) = ground (arith, length-contents p)
Readable-reader_ready p v (inr closed) = rw closed (ground arith)

writer_ready-Writable : (p : Pipe) → Inv p → writer_ready p ≡ true → Writable p
unfolding writer_ready
writer_ready-Writable p v is = elim (Bool-cases p.read_open) [
  | inr closed ↦ inr closed
  | inl opened ↦ inl (ground (arith, length-contents p, is, opened, v.early, v.ordered))
]

Writable-writer_ready : (p : Pipe) → Inv p → Writable p → writer_ready p ≡ true
unfolding writer_ready
Writable-writer_ready p v (inl space) =
    ground (arith, length-contents p, v.early, v.ordered, v.bounded)
Writable-writer_ready p v (inr closed) = rw closed (ground arith)

pipe_at-PipeAt :
    (test : Pipe → Bool) (Q : Pipe → Type 0) (pipes : Pipes) (idx : ℕ)
    → ((p : Pipe) → pipes idx ≡ some p → test p ≡ true → Q p)
    → pipe_at test idx pipes ≡ true
    → PipeAt Q idx pipes
pipe_at-PipeAt test Q pipes idx holds is = elim (Bool-cases (ltb idx max_pipes)) [
  | inr outside ↦ let off : false ≡ true = rw outside at is in cc off
  | inl inside ↦
      let on : pipe_is test (pipes idx) ≡ true = rw inside at is in
      let (p, there, q) = go (pipes idx) refl on in (ground arith, p, there, q)
]
  where
    go :
        (o : Option Pipe)
        → pipes idx ≡ o
        → pipe_is test o ≡ true
        → (p : Pipe) × (pipes idx ≡ some p) × Q p
    go none e on = cc on
    go (some p) e on = (p, e, holds p e on)

PipeAt-pipe_at :
    (test : Pipe → Bool) (Q : Pipe → Type 0) (pipes : Pipes) (idx : ℕ)
    → ((p : Pipe) → pipes idx ≡ some p → Q p → test p ≡ true)
    → PipeAt Q idx pipes
    → pipe_at test idx pipes ≡ true
PipeAt-pipe_at test Q pipes idx holds (below, p, there, q) =
    let inside : ltb idx max_pipes ≡ true = ground arith in rw (inside, there) (holds p there q)

zombie_slot-Ended : (pid : ℕ) (s : Scheduler) → zombie_slot pid s ≡ true → Ended pid s
zombie_slot-Ended pid s is = elim (Bool-cases (ltb pid max_processes)) [
  | inr outside ↦ let off : false ≡ true = rw outside at is in cc off
  | inl inside ↦
      let on : slot_is (λ c. is_zombie c.state) (s.processes pid) ≡ true = rw inside at is in
      let (q, there, over) = go (s.processes pid) refl on in (ground arith, q, there, over)
]
  where
    go :
        (o : Option Process)
        → s.processes pid ≡ o
        → slot_is (λ c. is_zombie c.state) o ≡ true
        → (q : Process) × (s.processes pid ≡ some q) × (q.state ≡ zombie)
    go none e on = cc on
    go (some q) e on = (q, e, is_zombie_eq q.state on)

Ended-zombie_slot : (pid : ℕ) (s : Scheduler) → Ended pid s → zombie_slot pid s ≡ true
Ended-zombie_slot pid s (below, q, there, over) =
    let inside : ltb pid max_processes ≡ true = ground arith in rw (inside, there, over) refl

reason_met-Over :
    (pipes : Pipes) (s : Scheduler) (r : WakeReason)
    → AllInv pipes
    → reason_met pipes s r ≡ true
    → Over pipes s r
unfolding Over
reason_met-Over pipes s no_reason all met = cc met
reason_met-Over pipes s keyboard all met = tt
reason_met-Over pipes s (sleep deadline) all met = cc met
reason_met-Over pipes s (pipe_read idx) all met =
    pipe_at-PipeAt reader_ready Readable pipes idx
      (λ p there on. reader_ready-Readable p (all idx p there) on) met
reason_met-Over pipes s (pipe_write idx) all met =
    pipe_at-PipeAt writer_ready Writable pipes idx
      (λ p there on. writer_ready-Writable p (all idx p there) on) met
reason_met-Over pipes s (wait_for_child pid) all met = zombie_slot-Ended pid s met

Over-reason_met :
    (pipes : Pipes) (s : Scheduler) (r : WakeReason)
    → AllInv pipes
    → Over pipes s r
    → reason_met pipes s r ≡ true
unfolding Over
Over-reason_met pipes s no_reason all over = absurd over
Over-reason_met pipes s keyboard all over = refl
Over-reason_met pipes s (sleep deadline) all over = absurd over
Over-reason_met pipes s (pipe_read idx) all over =
    PipeAt-pipe_at reader_ready Readable pipes idx
      (λ p there on. Readable-reader_ready p (all idx p there) on) over
Over-reason_met pipes s (pipe_write idx) all over =
    PipeAt-pipe_at writer_ready Writable pipes idx
      (λ p there on. Writable-writer_ready p (all idx p there) on) over
Over-reason_met pipes s (wait_for_child pid) all over = Ended-zombie_slot pid s over

-- `keyboard_wake`, with every pipe's counters in order, at most a buffer apart and not near their end:
-- a process in a slot below 32 becomes Ready, with no reason, exactly if it is Blocked on a key, on a
-- read of a pipe that holds a byte or whose write end is closed, on a write to a pipe that has room or
-- whose read end is closed, or on the child whose slot it names while that slot holds a Zombie. Any
-- other process is left as it is, also one that sleeps, and one that waits for any child (0) while
-- slot 0 holds no Zombie, whatever has become of its children.
pub keyboard_wake_reasons :
    (pipes : Pipes) (s : Scheduler) (j : ℕ) (p : Process)
    → AllInv pipes
    → j < max_processes
    → s.processes j ≡ some p
    → (((keyboard_wake pipes s).processes j
          ≡ some (record p { state = ready; wake_reason = no_reason }))
        × (p.state ≡ blocked)
        × Over pipes s p.wake_reason)
      ⊎ (((keyboard_wake pipes s).processes j ≡ some p)
          × ¬ ((p.state ≡ blocked) × Over pipes s p.wake_reason))
keyboard_wake_reasons pipes s j p all below there =
    let now = keyboard_wake_lem pipes s j p below there in
    elim (Bool-cases (should_wake pipes s p)) [
      | inl is ↦
          let asleep : is_blocked p.state ≡ true = ground (arith, is) in
          let met : reason_met pipes s p.wake_reason ≡ true = ground (arith, is) in
          inl (
            now ∙ rw is refl,
            is_blocked_eq p.state asleep,
            reason_met-Over pipes s p.wake_reason all met,
          )
      | inr not_so ↦ inr (
        now ∙ rw not_so refl,
        λ (asleep, over).
            let met = Over-reason_met pipes s p.wake_reason all over in
            let is : should_wake pipes s p ≡ true = rw (asleep, met) refl in
            let clash : false ≡ true = sym not_so ∙ is in cc clash,
      )
    ]
