-- ===== src/Terminal/Bounds.antt =====
-- The indices of the line buffer and of the ring buffer, whatever is typed and read.
use indominus_os.Prelude.{
  ℕ, ◌+◌, ◌-◌, ◌≡◌, ◌≤◌, ◌<◌, refl, subst, ◌⊎◌, inl, inr, min, Bool, true, false, Option, none,
  some, List, [], ◌∷◌, ltb, if◌then◌else◌, arith, Bool-cases, ltb→lt, either_way, All,
}
use indominus_os.Sched.{Scheduler}
use indominus_os.Pipe.Table.{Pipes}
use indominus_os.Terminal.{
  Terminal, Termios, line_buf_size, kbdbuf_size, backspace, append_byte, edit_line,
  line_discipline_input, tty_apply_termios, push_byte, pop_byte,
}
use indominus_os.Terminal.Scancodes.{handler, ascii_of, with_shift}
use indominus_os.Terminal.Reading.{
  span, take_committed, reset_if_drained, read_line, block_on_keyboard, recheck, first_check,
}

-- All indices stay inside the buffers.
pub record Within (t : Terminal) : Type 0 where
  pub r_in : t.line_r ≤ line_buf_size
  pub w_in : t.line_w ≤ line_buf_size
  pub e_in : t.line_e ≤ line_buf_size
  pub head_in : t.kbd_head < kbdbuf_size
  pub tail_in : t.kbd_tail < kbdbuf_size
  pub count_in : t.kbd_count ≤ kbdbuf_size

edit_line-Within : (byte : ℕ) (t : Terminal) → Within t → Within (edit_line byte t)
unfolding edit_line backspace append_byte
edit_line-Within byte t i = record {
  r_in = ground arith;
  w_in = ground arith;
  e_in = ground arith;
  head_in = ground arith;
  tail_in = ground arith;
  count_in = ground arith;
}

reset_if_drained-Within : (t : Terminal) → Within t → Within (reset_if_drained t)
reset_if_drained-Within t i = record {
  r_in = ground arith;
  w_in = ground arith;
  e_in = ground arith;
  head_in = ground arith;
  tail_in = ground arith;
  count_in = ground arith;
}

take_committed-Within :
    (size : ℕ) (t : Terminal)
    → Within t
    → (take_committed size t ≡ none)
      ⊎ ((got : List ℕ) × (t' : Terminal) × (take_committed size t ≡ some (got, t')) × Within t')
unfolding take_committed
take_committed-Within size t i = elim (Bool-cases (ltb t.line_r t.line_w)) [
  | inr nothing ↦ inl (rw nothing refl)
  | inl some_left ↦
      let to_read = min size (t.line_w - t.line_r) in
      let t1 = record t { line_r = t.line_r + to_read } in
      let i1 : Within t1 = record {
        r_in = omega (arith, i.w_in, ltb→lt t.line_r t.line_w some_left);
        w_in = i.w_in;
        e_in = i.e_in;
        head_in = i.head_in;
        tail_in = i.tail_in;
        count_in = i.count_in;
      } in
      inr (
        span t.line_buf t.line_r to_read,
        reset_if_drained t1,
        rw some_left refl,
        reset_if_drained-Within t1 i1,
      )
]

-- What the rest of the kernel does to the terminal.
pub data Call : Type 0 where
  input scan push : ℕ → Call
  read : ℕ → (Terminal → Scheduler → Terminal × Scheduler) → Call
  pop : Call
  apply : Termios → Call

unfoldable pub run_call : Call → Pipes → Terminal → Scheduler → Terminal × Scheduler
unfolding line_discipline_input handler read_line tty_apply_termios push_byte pop_byte
run_call (input byte) pipes t s = line_discipline_input byte pipes t s
run_call (scan code) pipes t s = handler code pipes t s
run_call (push byte) pipes t s = (push_byte byte t, s)
run_call (read size meanwhile) pipes t s =
    let done = read_line size meanwhile t s in (done.terminal, done.sched)
run_call pop pipes t s = ((pop_byte t).1, s)
run_call (apply termios) pipes t s = (tty_apply_termios termios t, s)

-- What happens while a reader waits keeps the indices inside too.
unfoldable pub Keeps : Call → Type 0
Keeps (read size meanwhile) = (t : Terminal) (s : Scheduler) → Within t → Within (meanwhile t s).0
Keeps _ = Unit

pub run_calls : List Call → Pipes → Terminal → Scheduler → Terminal × Scheduler
run_calls [] pipes t s = (t, s)
run_calls (c ∷ cs) pipes t s = let (t', s') = run_call c pipes t s in run_calls cs pipes t' s'

input-Within :
    (byte : ℕ) (pipes : Pipes) (t : Terminal) (s : Scheduler)
    → Within t
    → Within (line_discipline_input byte pipes t s).0
unfolding line_discipline_input
input-Within byte pipes t s i =
    either_way (λ (r : Terminal × Scheduler). Within r.0) _ i (edit_line-Within byte t i)

shift-Within : (held : Bool) (t : Terminal) → Within t → Within (record t { shift_held = held })
shift-Within held t i = record {
  r_in = i.r_in;
  w_in = i.w_in;
  e_in = i.e_in;
  head_in = i.head_in;
  tail_in = i.tail_in;
  count_in = i.count_in;
}

handler-Within :
    (code : ℕ) (pipes : Pipes) (t : Terminal) (s : Scheduler)
    → Within t
    → Within (handler code pipes t s).0
unfolding handler
handler-Within code pipes t s i =
    let Q : Terminal × Scheduler → Type 0 = λ r. Within r.0 in
    either_way Q _ (either_way Q _ (shift-Within false t i) i) (
      either_way Q _ (shift-Within true t i) (
        either_way Q _ (input-Within 0x08 pipes t s i) (
          either_way Q _ (input-Within 0x0A pipes t s i) (
            either_way Q _ (input-Within b' ' pipes t s i) (
              either_way Q _ i (
                input-Within (if t.shift_held then with_shift (ascii_of code) else ascii_of code)
                  pipes t s i))))))

push_byte-Within : (byte : ℕ) (t : Terminal) → Within t → Within (push_byte byte t)
unfolding push_byte
push_byte-Within byte t i = record {
  r_in = ground (arith, i.r_in);
  w_in = ground (arith, i.w_in);
  e_in = ground (arith, i.e_in);
  head_in = ground (arith, i.head_in);
  tail_in = ground (arith, i.tail_in);
  count_in = ground (arith, i.count_in);
}

pop_byte-Within : (t : Terminal) → Within t → Within (pop_byte t).1
unfolding pop_byte
pop_byte-Within t i = record {
  r_in = ground (arith, i.r_in);
  w_in = ground (arith, i.w_in);
  e_in = ground (arith, i.e_in);
  head_in = ground (arith, i.head_in);
  tail_in = ground (arith, i.tail_in);
  count_in = ground (arith, i.count_in);
}

read_line-Within :
    (size : ℕ) (meanwhile : Terminal → Scheduler → Terminal × Scheduler) (t : Terminal)
    (s : Scheduler)
    → Keeps (read size meanwhile)
    → Within t
    → Within (read_line size meanwhile t s).terminal
unfolding read_line Keeps
read_line-Within size meanwhile t s keeps i =
    first (take_committed size t) (take_committed-Within size t i)
  where
    Taken : Terminal → Option (List ℕ × Terminal) → Type 0
    Taken t o = (o ≡ none) ⊎ ((got : List ℕ) × (t' : Terminal) × (o ≡ some (got, t')) × Within t')

    again :
        (t : Terminal) (s : Scheduler) (o : Option (List ℕ × Terminal))
        → Within t
        → Taken t o
        → Within (recheck o t s).terminal
    again t s none i taken = i
    again t s (some (got, t1)) i (inl e) = cc e
    again t s (some (got, t1)) i (inr (g, t2, e, i2)) =
        let same : t2 ≡ t1 = cc e in subst Within same i2

    first :
        (o : Option (List ℕ × Terminal))
        → Taken t o
        → Within (first_check size meanwhile o t s).terminal
    first (some (got, t1)) (inl e) = cc e
    first (some (got, t1)) (inr (g, t2, e, i2)) = let same : t2 ≡ t1 = cc e in subst Within same i2
    first none taken =
        let s1 = block_on_keyboard s.current_pid s in
        let (t2, s2) = meanwhile t s1 in
        again t2 s2 (take_committed size t2) (keeps t s1 i)
          (take_committed-Within size t2 (keeps t s1 i))

call-Within :
    (c : Call) (pipes : Pipes) (t : Terminal) (s : Scheduler)
    → Keeps c
    → Within t
    → Within (run_call c pipes t s).0
unfolding run_call tty_apply_termios
call-Within (input byte) pipes t s k i = input-Within byte pipes t s i
call-Within (scan code) pipes t s k i = handler-Within code pipes t s i
call-Within (push byte) pipes t s k i = push_byte-Within byte t i
call-Within (read size meanwhile) pipes t s k i = read_line-Within size meanwhile t s k i
call-Within pop pipes t s k i = pop_byte-Within t i
call-Within (apply termios) pipes t s k i = record {
  r_in = i.r_in;
  w_in = i.w_in;
  e_in = i.e_in;
  head_in = i.head_in;
  tail_in = i.tail_in;
  count_in = i.count_in;
}

-- Whatever bytes and scancodes arrive, and whatever is read, pushed, popped or set, the indices of the
-- line buffer stay at most at its size and those of the ring buffer inside it, so no access is out of
-- bounds; what happens while a reader waits has to keep them so too.
pub calls-Within :
    (calls : List Call) (pipes : Pipes) (t : Terminal) (s : Scheduler)
    → All Keeps calls
    → Within t
    → Within (run_calls calls pipes t s).0
unfolding run_calls
calls-Within [] pipes t s keeps i = i
calls-Within (c ∷ cs) pipes t s (k, ks) i =
    calls-Within cs pipes (run_call c pipes t s).0 (run_call c pipes t s).1 ks
      (call-Within c pipes t s k i)
