-- ===== src/Sched/Deliver.antt =====
-- `deliver_signal` of indo-kernel/src/process/scheduler.rs, with the memory that it writes.
use indominus_os.Prelude.{
  ℕ, ◌+◌, ◌-◌, ◌*◌, Bool, true, false, ◌&&◌, ◌||◌, Option, none, some, ltb, ◌==◌, if◌then◌else◌,
  update,
}
use indominus_os.Process.{
  Process, WakeReason, wait_for_child, no_reason, ready, zombie, blocked, has_pending_signal,
  signal_handler,
}
use indominus_os.Sched.{Scheduler, modify}

-- The words of the kernel stacks, mapped in every page table, and those of each page table's user half.
pub record Machine : Type 0 where
  pub kernel : ℕ → ℕ
  pub user : ℕ → ℕ → ℕ

-- `proc.signals_pending &= !(1 << (signum - 1))`
abbrev pub clear : ℕ → Process → Process
clear signum p = record p { signals_pending = update p.signals_pending (signum - 1) false }

abbrev pub terminate : ℕ → Process → Process
terminate signum p =
    clear signum (record p { state = zombie; exit_code = signum; terminated_by_signal = true })

abbrev pub stop : ℕ → Process → Process
stop signum p =
    clear signum (record p { state = blocked; wake_reason = no_reason; stop_signal = signum })

-- The default actions: 20 stops, 18 and 19 do nothing, 2, 3 and all others terminate.
unfoldable pub default_action : ℕ → Process → Process
default_action signum p =
    if signum == 20
    then stop signum p
    else if signum == 18 || signum == 19
    then clear signum p
    else terminate signum p

-- A parent that waits for this very child and is of the generation that the child knows.
abbrev pub waits_for : ℕ → WakeReason → Bool
waits_for child (wait_for_child pid) = pid == child
waits_for child _ = false

abbrev pub wake_if_waiting : ℕ → ℕ → Process → Process
wake_if_waiting child parent_gen p =
    if p.generation == parent_gen && waits_for child p.wake_reason
    then record p { state = ready; wake_reason = no_reason }
    else p

abbrev pub wake_parent_of : ℕ → Option Process → Scheduler → Scheduler
wake_parent_of pid none s = s
wake_parent_of pid (some p) s = elim p.parent_pid [
  | none ↦ s
  | some parent ↦ modify parent (wake_if_waiting pid p.parent_generation) s
]

unfoldable pub deliver_default : ℕ → ℕ → Scheduler → Scheduler
unfolding default_action
deliver_default pid signum s =
    let s' = modify pid (default_action signum) s in wake_parent_of pid (s'.processes pid) s'

abbrev pub user_addr_max : ℕ
user_addr_max = 0x0000_7FFF_FFFF_FFFF

-- The redirection of the interrupt frame at `sp + 15 * 8` to the handler.
unfoldable pub deliver_handler : ℕ → ℕ → ℕ → Process → Scheduler → Machine → Scheduler × Machine
deliver_handler pid signum handler_addr p s m =
    let sp = p.stack_pointer in
    let iret_base = sp + 15 * 8 in
    let orig_rip = m.kernel iret_base in
    let orig_rsp = m.kernel (iret_base + 24) in
    if sp == 0 || p.pml4_phys == 0
    then (s, m)
    else if ltb orig_rsp 8 || ltb user_addr_max (orig_rsp - 8)
    then (
      modify pid
          (λ q.
            clear signum (record q { state = zombie; exit_code = 11; terminated_by_signal = true }))
          s,
      m,
    )
    else (
      modify pid (clear signum) s,
      record {
        kernel =
            update (update (update m.kernel iret_base handler_addr) (iret_base + 24) (orig_rsp - 8))
              (sp + 5 * 8) signum;
        user = update m.user p.pml4_phys (update (m.user p.pml4_phys) (orig_rsp - 8) orig_rip);
      },
    )

unfoldable pub deliver_to : ℕ → ℕ → Process → Scheduler → Machine → Scheduler × Machine
unfolding deliver_default deliver_handler signal_handler
deliver_to pid signum p s m =
    let handler = signal_handler signum p in
    if handler == 0
    then (deliver_default pid signum s, m)
    else if handler == 1
    then (modify pid (clear signum) s, m)
    else deliver_handler pid signum handler p s m

abbrev pub deliver_pending : ℕ → Option ℕ → Process → Scheduler → Machine → Scheduler × Machine
deliver_pending pid none p s m = (s, m)
deliver_pending pid (some signum) p s m = deliver_to pid signum p s m

abbrev pub deliver_in : ℕ → Option Process → Scheduler → Machine → Scheduler × Machine
deliver_in pid none s m = (s, m)
deliver_in pid (some p) s m =
    if p.is_user then deliver_pending pid (has_pending_signal p) p s m else (s, m)

unfoldable pub deliver_signal : ℕ → Scheduler → Machine → Scheduler × Machine
unfolding deliver_to has_pending_signal
deliver_signal pid s m = deliver_in pid (s.processes pid) s m
