-- ===== src/Terminal.antt =====
-- indo-kernel/src/keyboard.rs and tty.rs: the line discipline. The statics are the fields of
-- `Terminal`; echo and the other serial output are left out.
pub mod Scancodes
pub mod Reading
pub mod Lines
pub mod Bounds
pub mod Typing
mod Examples
use indominus_os.Prelude.{
  ℕ, ◌+◌, ◌-◌, ◌%◌, Bool, true, false, not, ◌&&◌, ◌||◌, Option, none, some, ltb, leb, ◌==◌,
  if◌then◌else◌, update, bit_and,
}
use indominus_os.Sched.{Scheduler}
use indominus_os.Pipe.Table.{Pipes}
use indominus_os.Wake.{send_signal_to_fg}

abbrev pub line_buf_size : ℕ
line_buf_size = 4096

abbrev pub kbdbuf_size : ℕ
kbdbuf_size = 256

pub record Terminal : Type 0 where
  pub line_buf : ℕ → ℕ
  pub line_r : ℕ
  pub line_w : ℕ
  pub line_e : ℕ
  pub shift_held : Bool
  pub keyboard_wake_pending : Bool
  pub lflags : ℕ
  pub iflag : ℕ
  pub oflag : ℕ
  pub kbd_buf : ℕ → ℕ
  pub kbd_head : ℕ
  pub kbd_tail : ℕ
  pub kbd_count : ℕ

-- ICANON, ECHO and ISIG are 1, 2 and 4.
unfoldable pub is_canonical : Terminal → Bool
is_canonical t = not (bit_and t.lflags 1 == 0)

unfoldable pub is_echo : Terminal → Bool
is_echo t = not (bit_and t.lflags 2 == 0)

unfoldable pub is_sig_enabled : Terminal → Bool
is_sig_enabled t = not (bit_and t.lflags 4 == 0)

abbrev pub tty_set_lflags : ℕ → Terminal → Terminal
tty_set_lflags flags t = record t { lflags = flags }

pub record Termios : Type 0 where
  pub term_iflag : ℕ
  pub term_oflag : ℕ
  pub term_cflag : ℕ
  pub term_lflag : ℕ
  pub term_cc : ℕ → ℕ

abbrev control_chars : ℕ → ℕ
control_chars = update (update (update (update (update (λ _. 0) 0 1) 1 28) 2 127) 3 3) 4 26

unfoldable pub default_cooked : Termios
default_cooked = record {
  term_iflag = 0;
  term_oflag = 0;
  term_cflag = 0;
  term_lflag = 7;
  term_cc = control_chars;
}

unfoldable pub default_raw : Termios
default_raw = record {
  term_iflag = 0;
  term_oflag = 0;
  term_cflag = 0;
  term_lflag = 0;
  term_cc = control_chars;
}

-- Each flag is cut to a byte.
unfoldable pub tty_apply_termios : Termios → Terminal → Terminal
tty_apply_termios termios t = record t {
  lflags = termios.term_lflag % 256;
  iflag = termios.term_iflag % 256;
  oflag = termios.term_oflag % 256;
}

-- SIGINT, SIGTSTP and SIGQUIT for Ctrl+C, Ctrl+Z and Ctrl+\, and 0 for any other byte.
unfoldable pub check_signal_char : ℕ → Terminal → ℕ
unfolding is_sig_enabled
check_signal_char byte t =
    if not (is_sig_enabled t)
    then 0
    else if byte == 0x03
    then 2
    else if byte == 0x1A
    then 20
    else if byte == 0x1C
    then 3
    else 0

-- `LINE_BUF[e] = byte` and `e + 1`
abbrev pub store_byte : ℕ → Terminal → Terminal
store_byte byte t = record t { line_buf = update t.line_buf t.line_e byte; line_e = t.line_e + 1 }

abbrev pub commit_line : Terminal → Terminal
commit_line t = record t { line_w = t.line_e; keyboard_wake_pending = true }

abbrev pub is_backspace : ℕ → Bool
is_backspace byte = byte == 0x08 || byte == 0x7F

unfoldable pub backspace : ℕ → Terminal → Terminal
unfolding is_canonical
backspace byte t =
    if ltb t.line_r t.line_e && is_canonical t
    then record t { line_e = t.line_e - 1 }
    else if not (is_canonical t) && ltb t.line_e line_buf_size
    then store_byte byte t
    else t

unfoldable pub append_byte : ℕ → Terminal → Terminal
unfolding is_canonical
append_byte byte t =
    let stored = store_byte byte t in
    if not (ltb t.line_e line_buf_size)
    then t
    else if is_canonical t
    then stored
    else commit_line stored

-- The match on a byte that is no signal character.
unfoldable pub edit_line : ℕ → Terminal → Terminal
unfolding backspace append_byte
edit_line byte t =
    if byte == 0x0A
    then commit_line t
    else if is_backspace byte
    then backspace byte t
    else append_byte byte t

unfoldable pub line_discipline_input : ℕ → Pipes → Terminal → Scheduler → Terminal × Scheduler
unfolding check_signal_char edit_line send_signal_to_fg
line_discipline_input byte pipes t s =
    let sig = check_signal_char byte t in
    if not (sig == 0) then (t, send_signal_to_fg sig pipes s) else (edit_line byte t, s)

-- The raw ring buffer.
unfoldable pub push_byte : ℕ → Terminal → Terminal
push_byte b t = if leb kbdbuf_size t.kbd_count then t else record t {
  kbd_buf = update t.kbd_buf t.kbd_head b;
  kbd_head = (t.kbd_head + 1) % kbdbuf_size;
  kbd_count = t.kbd_count + 1;
}

unfoldable pub pop_byte : Terminal → Option ℕ × Terminal
pop_byte t = if t.kbd_count == 0 then (none, t) else (
  some (t.kbd_buf t.kbd_tail),
  record t { kbd_tail = (t.kbd_tail + 1) % kbdbuf_size; kbd_count = t.kbd_count - 1 },
)

unfoldable pub has_data : Terminal → Bool
has_data t = ltb 0 t.kbd_count
