-- ===== src/Process.antt =====
-- indo-kernel/src/process/process.rs: what the scheduler and the signals see of a process. The file
-- descriptors are in Fds.antt; the heap, the working directory, the mmap regions and the FPU state are
-- left out.
use mathlib.Core.Option
use indominus_os.Prelude.{
  ℕ, zero, suc, ◌+◌, ◌-◌, Bool, true, false, not, ◌&&◌, ◌||◌, Option, none, some, ltb, ◌==◌,
  if◌then◌else◌, update,
}

abbrev pub max_processes : ℕ
max_processes = 32

pub data ProcessState : Type 0 where
  ready running blocked zombie : ProcessState

pub data WakeReason : Type 0 where
  no_reason keyboard : WakeReason
  sleep pipe_read pipe_write wait_for_child : ℕ → WakeReason

pub record Process : Type 0 where
  pub pid : ℕ
  pub state : ProcessState
  pub stack_pointer : ℕ
  pub pml4_phys : ℕ
  pub saved_cr3 : ℕ
  pub exit_code : ℕ
  pub terminated_by_signal : Bool
  pub stop_signal : ℕ
  pub is_user : Bool
  pub parent_pid : Option ℕ
  pub parent_generation : ℕ
  pub generation : ℕ
  pub wake_reason : WakeReason
  -- Bit n of each `u32` mask, for n below 32.
  pub signals_pending : ℕ → Bool
  pub signals_blocked : ℕ → Bool
  pub signal_handlers : ℕ → ℕ
  pub pgid : ℕ

abbrev pub is_ready : ProcessState → Bool
is_ready ready = true
is_ready _ = false

abbrev pub is_running : ProcessState → Bool
is_running running = true
is_running _ = false

abbrev pub is_blocked : ProcessState → Bool
is_blocked blocked = true
is_blocked _ = false

abbrev pub is_zombie : ProcessState → Bool
is_zombie zombie = true
is_zombie _ = false

abbrev is_signal : ℕ → Bool
is_signal signum = not (signum == 0 || ltb 31 signum)

unfoldable pub send_signal : ℕ → Process → Process
send_signal signum p =
    if is_signal signum
    then record p { signals_pending = update p.signals_pending (signum - 1) true }
    else p

-- `for i in 0..32`, over `rounds` bits from bit i on.
unfoldable pub first_pending : ℕ → ℕ → (ℕ → Bool) → Option ℕ
first_pending zero i pending = none
first_pending (suc rounds) i pending =
    let rest = first_pending rounds (i + 1) pending in if pending i then some (i + 1) else rest

-- The early return on an empty mask is the loop's own `None`.
unfoldable pub has_pending_signal : Process → Option ℕ
unfolding first_pending
has_pending_signal p = first_pending 32 0 (λ i. p.signals_pending i && not (p.signals_blocked i))

unfoldable pub signal_handler : ℕ → Process → ℕ
signal_handler signum p = if is_signal signum then p.signal_handlers (signum - 1) else 0

unfoldable pub clear_pending_signal : ℕ → Process → Process
clear_pending_signal signum p =
    if is_signal signum
    then record p { signals_pending = update p.signals_pending (signum - 1) false }
    else p

-- The fields that `new_kernel` and `new_user` set to a constant, given those that they do not.
abbrev pub blank : Process
blank = record {
  pid = 0;
  state = ready;
  stack_pointer = 0;
  pml4_phys = 0;
  saved_cr3 = 0;
  exit_code = 0;
  terminated_by_signal = false;
  stop_signal = 0;
  is_user = false;
  parent_pid = none;
  parent_generation = 0;
  generation = 0;
  wake_reason = no_reason;
  signals_pending = λ _. false;
  signals_blocked = λ _. false;
  signal_handlers = λ _. 0;
  pgid = 0;
}

-- The stack pointer is that of the initial frame on the new kernel stack; `none` stands for a failed
-- allocation of that stack.
unfoldable pub new_kernel : ℕ → Option ℕ → ℕ → Option Process
new_kernel pid stack pml4 =
    Option.map (λ sp. record blank { pid = pid; stack_pointer = sp; pml4_phys = pml4 }) stack

unfoldable pub new_user : ℕ → Option ℕ → ℕ → Option ℕ → ℕ → Option Process
new_user pid stack pml4 parent_pid parent_generation =
    Option.map
      (λ sp. record blank {
        pid = pid;
        stack_pointer = sp;
        pml4_phys = pml4;
        is_user = true;
        parent_pid = parent_pid;
        parent_generation = parent_generation;
      })
      stack
