-- ===== src/Wake/Examples.antt =====
-- The wake-ups at a table of a few processes.
use indominus_os.Prelude.{
  ◌≡◌, ◌≢◌, ◌⊎◌, ◌==◌, inl, inr, refl, subst, true, false, none, some, update, arith, Bool-cases,
}
use indominus_os.Process.{
  Process, no_reason, keyboard, wait_for_child, ready, running, blocked, blank,
}
use indominus_os.Process
use indominus_os.Sched.{Scheduler, new}
use indominus_os.Pipe.{Pipe, pipe_read, read_blocks}
use indominus_os.Pipe.Fifo.{Inv}
use indominus_os.Pipe.Table.{Pipes}
use indominus_os.Wake.{reader_ready, wake, keyboard_wake, send_signal_to_fg, fg_group}
use indominus_os.Wake.Reasons.{AllInv, Over, keyboard_wake_reasons}
use indominus_os.Wake.Revived.{killed_by, send_signal_to_fg_revives}
use indominus_os.Wake.Readiness.{reader_ready_lem}

abbrev empty_pipe : Pipe
empty_pipe = record {
  bytes = λ _. 0;
  nread = 0;
  nwrite = 0;
  read_open = true;
  write_open = true;
  refcount = 2;
}

-- Three bytes are left in it.
abbrev filled : Pipe
filled = record empty_pipe { nwrite = 3 }

reader_ready_lem_example :
    (reader_ready filled ≡ false → (pipe_read 2 filled).0 ≡ read_blocks)
    × (reader_ready filled ≡ true → (pipe_read 2 filled).0 ≢ read_blocks)
reader_ready_lem_example =
    reader_ready_lem 2 filled (omega arith)
      (record { early = omega arith; bounded = omega arith; ordered = omega arith })

abbrev no_pipes : Pipes
no_pipes i = none

-- Process 1 waits for any child, and process 2, of its group, runs.
abbrev waiting : Process
waiting = record blank {
  pid = 1;
  is_user = true;
  pgid = 1;
  state = blocked;
  wake_reason = wait_for_child 0;
}

abbrev typing : Process
typing = record blank { pid = 3; is_user = true; pgid = 3; state = blocked; wake_reason = keyboard }

abbrev shell : Scheduler
shell = record new {
  processes =
      update
        (update (update (λ _. none) 1 (some waiting)) 2
          (some (record waiting { pid = 2; state = running })))
        3 (some typing);
  current_pid = some 2;
}

-- A process in slot 4 waits to read from a pipe that has bytes.
abbrev one_pipe : Pipes
one_pipe = update no_pipes 0 (some filled)

abbrev reading : Process
reading = record blank { pid = 4; state = blocked; wake_reason = Process.pipe_read 0 }

one_pipe-AllInv : AllInv one_pipe
one_pipe-AllInv idx p e = elim (Bool-cases (0 == idx)) [
  | inl here ↦
      let q : some filled ≡ some p = ground (arith, e, here) in
      let same : filled ≡ p = cc q in
      subst Inv same (record { early = omega arith; bounded = omega arith; ordered = omega arith })
  | inr other ↦ let q : none ≡ some p = ground (arith, e, other) in cc q
]

abbrev readers : Scheduler
readers = record shell { processes = update shell.processes 4 (some reading) }

keyboard_wake_reasons_example :
    (((keyboard_wake one_pipe readers).processes 4
        ≡ some (record reading { state = ready; wake_reason = no_reason }))
      × (blocked ≡ blocked)
      × Over one_pipe readers (Process.pipe_read 0))
    ⊎ (((keyboard_wake one_pipe readers).processes 4 ≡ some reading)
        × ¬ ((blocked ≡ blocked) × Over one_pipe readers (Process.pipe_read 0)))
keyboard_wake_reasons_example =
    keyboard_wake_reasons one_pipe readers 4 reading one_pipe-AllInv (omega arith) refl

send_signal_to_fg_revives_example :
    (send_signal_to_fg 2 no_pipes shell).processes 1 ≡ some (wake (killed_by 2 waiting))
unfolding fg_group
send_signal_to_fg_revives_example =
    send_signal_to_fg_revives no_pipes shell 1 1 waiting (omega arith) (omega arith) refl refl refl
      refl
