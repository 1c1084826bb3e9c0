-- ===== src/Terminal/Reading.antt =====
-- `read_line` of indo-kernel/src/keyboard.rs.
use indominus_os.Prelude.{
  ℕ, zero, suc, ◌+◌, ◌-◌, min, Bool, true, false, ◌&&◌, Option, none, some, List, [], ◌∷◌, ltb,
  ◌==◌, if◌then◌else◌,
}
use indominus_os.Process.{keyboard, blocked}
use indominus_os.Sched.{Scheduler, modify}
use indominus_os.Terminal.{Terminal}

-- `count` bytes of a buffer from an index on.
abbrev pub span : (ℕ → ℕ) → ℕ → ℕ → List ℕ
span buf from zero = []
span buf from (suc count) = buf from ∷ span buf (from + 1) count

-- All three indices go back to 0 when everything is read and no line is being typed.
abbrev pub reset_if_drained : Terminal → Terminal
reset_if_drained t =
    if t.line_r == t.line_w && t.line_e == t.line_w
    then record t { line_r = 0; line_w = 0; line_e = 0 }
    else t

-- Up to `size` committed bytes, or nothing if there are none.
unfoldable pub take_committed : ℕ → Terminal → Option (List ℕ × Terminal)
take_committed size t =
    let to_read = min size (t.line_w - t.line_r) in
    if ltb t.line_r t.line_w
    then some (
      span t.line_buf t.line_r to_read,
      reset_if_drained (record t { line_r = t.line_r + to_read }),
    )
    else none

abbrev pub block_on_keyboard : Option ℕ → Scheduler → Scheduler
block_on_keyboard none s = s
block_on_keyboard (some pid) s =
    modify pid (λ p. record p { state = blocked; wake_reason = keyboard }) s

pub record ReadLine : Type 0 where
  pub got : List ℕ
  pub terminal : Terminal
  pub sched : Scheduler
  -- Whether `yield_now` was called.
  pub force_switch : Bool

-- The second check.
abbrev pub recheck : Option (List ℕ × Terminal) → Terminal → Scheduler → ReadLine
recheck none t s = record { got = []; terminal = t; sched = s; force_switch = true }
recheck (some (got, t')) t s = record { got = got; terminal = t'; sched = s; force_switch = true }

abbrev pub first_check :
    ℕ
    → (Terminal → Scheduler → Terminal × Scheduler)
    → Option (List ℕ × Terminal)
    → Terminal
    → Scheduler
    → ReadLine
first_check size meanwhile (some (got, t')) t s = record {
  got = got;
  terminal = t';
  sched = s;
  force_switch = false;
}
first_check size meanwhile none t s =
    let (t', s') = meanwhile t (block_on_keyboard s.current_pid s) in
    recheck (take_committed size t') t' s'

-- `meanwhile` is what interrupts do between the two checks.
unfoldable pub read_line :
    ℕ → (Terminal → Scheduler → Terminal × Scheduler) → Terminal → Scheduler → ReadLine
unfolding take_committed
read_line size meanwhile t s = first_check size meanwhile (take_committed size t) t s
