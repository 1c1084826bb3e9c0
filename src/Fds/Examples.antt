-- ===== src/Fds/Examples.antt =====
-- A process with its standard descriptors.
use indominus_os.Prelude.{
  ℕ, ◌≡◌, refl, false, List, [], ◌∷◌, none, some, update, arith, Bool-cases, inl, inr, ◌==◌,
}
use indominus_os.Pipe.{new}
use indominus_os.Pipe.Table.{alloc_pipe}
use indominus_os.Sched.{Scheduler}
use indominus_os.Fds.{
  FdType, closed, stdin, stdout, stderr, pipe_end, fs_file, FdTable, World, emfile, find_free,
  sys_pipe, sys_close, sys_dup,
}
use indominus_os.Vfs.Ramfs.{file_handle}
use indominus_os.Fds.Ends.{ends_below}
use indominus_os.Fds.Calls.{Counted}
use indominus_os.Fds.Opening.{Call, opens_pipe, closes, dups, dups_to, run, calls-Counted}
use indominus_os.Fds.Leaks.{handles_of, sys_dup_leaks, sys_close_keeps_handles}

abbrev standard : ℕ → FdType
standard = update (update (update (λ _. closed) 0 stdin) 1 stdout) 2 stderr

abbrev no_others : ℕ → ℕ
no_others idx = 0

abbrev table : (ℕ → FdType) → FdTable
table fds = record { fd_types = fds; fd_flags = λ _. 0; file_handles = λ _. none; pipe_count = 0 }

abbrev idle_sched : Scheduler
idle_sched = indominus_os.Sched.new

abbrev started : World
started = record { current_fds = some (table standard); pipes = λ _. none; sched = idle_sched }

started-Counted : Counted no_others started
unfolding ends_below
started-Counted idx below = refl

abbrev some_calls : List Call
some_calls = opens_pipe ∷ dups 3 ∷ dups_to 4 1 ∷ closes 3 ∷ []

copied_to_5 : (sys_dup 3 (sys_pipe started).1).0 ≡ 5
unfolding sys_dup sys_pipe find_free alloc_pipe
copied_to_5 = refl

calls-Counted_example : Counted no_others (run some_calls started)
calls-Counted_example =
    calls-Counted no_others some_calls started (λ idx. omega arith)
      ((λ h. absurd (omega (arith, h, copied_to_5))), tt) started-Counted

-- All descriptors are the read end of pipe 0.
abbrev full : World
full = record {
  current_fds = some (table (λ _. pipe_end 0 false));
  pipes = update (λ _. none) 0 (some (record new { refcount = 16 }));
  sched = idle_sched;
}

full-Counted : Counted no_others full
unfolding ends_below
full-Counted idx below = elim (Bool-cases (0 == idx)) [
  | inl here ↦ rw here (refl, omega arith)
  | inr other ↦ rw other refl
]

sys_dup_leaks_example : ((sys_dup 3 full).0 ≡ emfile) × (Counted no_others (sys_dup 3 full).1 → ⊥)
unfolding find_free
sys_dup_leaks_example =
    sys_dup_leaks no_others full (table (λ _. pipe_end 0 false)) 3 0 false (omega arith)
      (omega arith) (omega arith) refl refl refl full-Counted

-- Descriptor 3 is the only one of the file in handle 0.
abbrev one_file : World
one_file = record started {
  current_fds = some (record (table (update standard 3 (fs_file 0))) {
    file_handles = update (λ _. none) 0 (some (file_handle 7 0));
  });
}

sys_close_keeps_handles_example :
    handles_of (sys_close 3 one_file).1.current_fds 0 ≡ handles_of one_file.current_fds 0
sys_close_keeps_handles_example = sys_close_keeps_handles 3 one_file 0
