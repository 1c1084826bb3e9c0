-- ===== src/Terminal/Examples.antt =====
-- The line discipline at a terminal that has just started.
use indominus_os.Prelude.{◌≡◌, refl, false, none, some, [], ◌∷◌, ◌++◌, ltb, arith}
use indominus_os.Sched.{new}
use indominus_os.Pipe.Table.{Pipes}
use indominus_os.Terminal.{Terminal, line_buf_size, is_canonical, edit_line}
use indominus_os.Terminal.Scancodes.{ascii_of, with_shift}
use indominus_os.Terminal.Reading.{take_committed}
use indominus_os.Terminal.Lines.{Ordered, view, key, edit_line_lem}
use indominus_os.Terminal.Typing.{type_keys, type_line}
use indominus_os.Terminal.Bounds.{Within, Keeps, input, scan, read, pop, run_calls, calls-Within}

abbrev started : Terminal
started = record {
  line_buf = λ _. 0;
  line_r = 0;
  line_w = 0;
  line_e = 0;
  shift_held = false;
  keyboard_wake_pending = false;
  lflags = 7;
  iflag = 0;
  oflag = 0;
  kbd_buf = λ _. 0;
  kbd_head = 0;
  kbd_tail = 0;
  kbd_count = 0;
}

started-Ordered : Ordered started
started-Ordered = record {
  read_committed = omega arith;
  committed_typed = omega arith;
  typed_room = omega arith;
}

started-Within : Within started
started-Within = record {
  r_in = omega arith;
  w_in = omega arith;
  e_in = omega arith;
  head_in = omega arith;
  tail_in = omega arith;
  count_in = omega arith;
}

edit_line_lem_example :
    Ordered (edit_line b'a' started)
    × (view (edit_line b'a' started) ≡ key b'a' (ltb 0 line_buf_size) (view started))
unfolding is_canonical
edit_line_lem_example = edit_line_lem b'a' started started-Ordered refl (λ h. cc h)

type_line_example :
    (t' : Terminal) × (take_committed 64 (edit_line 0x0A (type_keys (b'l' ∷ b's' ∷ []) started))
      ≡ some ((view started).committed ++ ((view started).editing ++ b'l' ∷ b's' ∷ []), t'))
    × (view t' ≡ record { committed = []; editing = [] })
unfolding is_canonical view
type_line_example =
    type_line (b'l' ∷ b's' ∷ []) 64 started (refl, (refl, tt)) (omega arith) started-Ordered refl
      (omega arith) (omega arith)

abbrev no_pipes : Pipes
no_pipes i = none

calls-Within_example :
    Within
      (run_calls
        (scan 0x1E ∷ input 0x0A ∷ read 8 (λ t s. (t, s)) ∷ pop ∷ [])
        no_pipes
        started
        new).0
unfolding Keeps
calls-Within_example =
    calls-Within (scan 0x1E ∷ input 0x0A ∷ read 8 (λ t s. (t, s)) ∷ pop ∷ []) no_pipes started new
      (tt, (tt, (λ t s i. i, (tt, tt)))) started-Within

-- "a" was typed and committed.
abbrev committed_a : Terminal
committed_a = record started { line_buf = λ _. b'a'; line_w = 1; line_e = 1 }

shifted_a : with_shift (ascii_of 0x1E) ≡ b'A'
unfolding with_shift ascii_of
shifted_a = refl
